-- ===== src/Wire.antt =====
-- What the header codecs share: Go's `copy` into a slice from an offset.
use go_network.Base.{ℕ, suc, List, [], ◌∷◌, set}

-- `copy(buf[i:], src)`; what does not fit is left out.
unfoldable pub copy_at : List ℕ → ℕ → List ℕ → List ℕ
copy_at buf i [] = buf
copy_at buf i (x ∷ xs) = copy_at (set buf i x) (suc i) xs
