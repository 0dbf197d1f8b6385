-- ===== src/Exec/Laws.antt =====
-- Laws of the bind of `Exec`, at a state.
use rust_adv_pop.Prelude.{◌≡◌, refl}
use rust_adv_pop.Error.{PopResult, ok, err}
use rust_adv_pop.Exec.{Exec, continue, ◌>>=◌}

pub continue-ext :
    {S A B : Type 0} (r : PopResult A × S) (f g : A → Exec S B)
    → ((a : A) (s : S) → f a s ≡ g a s)
    → continue r f ≡ continue r g
continue-ext (ok a, s) f g h = h a s
continue-ext (err e, s) f g h = refl

pub continue_assoc :
    {S A B C : Type 0} (r : PopResult A × S) (f : A → Exec S B) (g : B → Exec S C)
    → continue (continue r f) g ≡ continue r (λ a. f a >>= g)
continue_assoc (ok a, s) f g = refl
continue_assoc (err e, s) f g = refl
