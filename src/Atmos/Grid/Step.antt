-- ===== src/Atmos/Grid/Step.antt =====
-- One turn of a cell: it stays in bounds, and the grid holds what it held.
use griefly.Prelude.{ℕ, zero, suc, ◌≡◌, refl, ◌∙◌, ap, subst, ◌≢◌, arith}
use griefly.Prelude.{Option, some, none, List, [], ◌∷◌, get_elem?, set, length, All}
use griefly.Prelude.{length-set, get_elem?-set_ne}
use griefly.Prelude.Int.{ℤ, pos, ◌+ℤ◌, int_laws, parts_of}
use griefly.Atmos.Gas.{AtmosData, IsPhysical, Quantity, measure}
use griefly.Atmos.Cell.{Cell}
use griefly.Atmos.Cell.Balance.{held}
use griefly.Atmos.Cell.Settling.{Holds}
use griefly.Atmos.Grid.{put_near}
use mathlib.Core.Option

abbrev pub grid_total : Quantity → List Cell → ℤ
grid_total q [] = pos 0
grid_total q (c ∷ cells) = measure q c.mixture +ℤ grid_total q cells

-- No cell holds less than nothing.
abbrev pub GridPhysical : List Cell → Type 0
GridPhysical = All (λ c. IsPhysical c.mixture)

-- What a pass over the grid keeps.
pub record Keeps (before after : List Cell) : Type 0 where
  pub same_length : length after ≡ length before
  pub same_total : (q : Quantity) → grid_total q after ≡ grid_total q before
  pub still_physical : GridPhysical before → GridPhysical after

pub Keeps-refl : (cells : List Cell) → Keeps cells cells
Keeps-refl cells = record { same_length = refl; same_total = λ q. refl; still_physical = λ v. v }

pub Keeps-trans : (a b c : List Cell) → Keeps a b → Keeps b c → Keeps a c
Keeps-trans a b c k l = record {
  same_length = l.same_length ∙ k.same_length;
  same_total = λ q. l.same_total q ∙ k.same_total q;
  still_physical = λ v. l.still_physical (k.still_physical v);
}

pub grid_total-set :
    (q : Quantity) (cells : List Cell) (i : ℕ) (old new : Cell)
    → get_elem? cells i ≡ some old
    → grid_total q (set cells i new) +ℤ measure q old.mixture
      ≡ grid_total q cells +ℤ measure q new.mixture
grid_total-set q [] i old new h = cc
grid_total-set q (c ∷ cells) zero old new h =
    let same : measure q c.mixture ≡ measure q old.mixture = ground arith in
    omega (int_laws, parts_of same)
grid_total-set q (c ∷ cells) (suc i) old new h =
    omega (int_laws, parts_of (grid_total-set q cells i old new h))

pub GridPhysical-set :
    (cells : List Cell) (i : ℕ) (new : Cell)
    → GridPhysical cells
    → IsPhysical new.mixture
    → GridPhysical (set cells i new)
GridPhysical-set [] i new v n = tt
GridPhysical-set (c ∷ cells) zero new v n = (n, v.1)
GridPhysical-set (c ∷ cells) (suc i) new v n = (v.0, GridPhysical-set cells i new v.1 n)

pub GridPhysical-get :
    (cells : List Cell) (i : ℕ) (c : Cell)
    → GridPhysical cells
    → get_elem? cells i ≡ some c
    → IsPhysical c.mixture
GridPhysical-get [] i c v h = cc
GridPhysical-get (x ∷ cells) zero c v h = subst IsPhysical (ap mixture_of h) v.0
  where
    mixture_of : Option Cell → AtmosData
    mixture_of none = c.mixture
    mixture_of (some d) = d.mixture
GridPhysical-get (x ∷ cells) (suc i) c v h = GridPhysical-get cells i c v.1 h

-- What was read of a neighbour is what stands there.
abbrev pub Was : List Cell → ℕ → Option Cell → Type 0
Was cells j none = Unit
Was cells j (some c) = get_elem? cells j ≡ some c

module _ (q : Quantity) where
  pub grid_total-put :
      (cells : List Cell) (j : ℕ) (o : Option Cell) (g : Cell → Cell)
      → Was cells j o
      → grid_total q (put_near cells (some j) (Option.map g o)) +ℤ held q o
        ≡ grid_total q cells +ℤ held q (Option.map g o)
  grid_total-put cells j none g w = refl
  grid_total-put cells j (some c) g w = grid_total-set q cells j c (g c) w

pub Was-put :
    (cells : List Cell) (j k : ℕ) (p o : Option Cell)
    → j ≢ k
    → Was cells k o
    → Was (put_near cells (some j) p) k o
Was-put cells j k none o ne w = w
Was-put cells j k (some c) none ne w = tt
Was-put cells j k (some c) (some d) ne w = get_elem?-set_ne cells j k c ne ∙ w

pub length-put :
    (cells : List Cell) (j : ℕ) (p : Option Cell)
    → length (put_near cells (some j) p) ≡ length cells
length-put cells j none = refl
length-put cells j (some c) = length-set cells j c

pub GridPhysical-put :
    (cells : List Cell) (j : ℕ) (p : Option Cell)
    → GridPhysical cells
    → Holds p
    → GridPhysical (put_near cells (some j) p)
GridPhysical-put cells j none v h = v
GridPhysical-put cells j (some c) v h = GridPhysical-set cells j c v h

pub Was-Holds :
    (cells : List Cell) (j : ℕ) (o : Option Cell) → GridPhysical cells → Was cells j o → Holds o
Was-Holds cells j none v w = tt
Was-Holds cells j (some c) v w = GridPhysical-get cells j c v w
