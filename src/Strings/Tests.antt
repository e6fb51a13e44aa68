-- ===== src/Strings/Tests.antt =====
-- Runs of Strings.
use go_network.Base.{◌≡◌, refl, [], ◌∷◌}
use go_network.Strings.{codes}
use go_network.Strings.Printf.{num, text, sprintf}

mixed :
    sprintf (codes "\n\ta: %d, b=%x %s!") (num 120 ∷ num 43981 ∷ text (codes "t") ∷ [])
    ≡ codes "\n\ta: 120, b=abcd t!"
unfolding sprintf
mixed = refl

none_left : sprintf (codes "%d-%d") (num 7 ∷ []) ≡ codes "7-%!d(MISSING)"
unfolding sprintf
none_left = refl
