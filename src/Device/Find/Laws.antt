-- ===== src/Device/Find/Laws.antt =====
-- What the searches of core_daemon/device.c find after a write through the pointer that they return.
use hsbsw.Prelude.{
  ℕ, ◌≡◌, List, [], ◌∷◌, some, ◌==◌, if◌then◌else◌, All, arith, Bool-cases, inl, inr,
}
use mathlib.Core.Option
use mathlib.Core.Path.{subst}
use hsbsw.Device.Types.{Dev}
use hsbsw.Device.Find.{find_dev, update_dev}

-- A write to one device is seen by the searches for its id, and by no other.
pub find_dev-update_dev :
    (q : List Dev) (i j : ℕ) (f : Dev → Dev)
    → ((d : Dev) → (f d).id ≡ d.id)
    → find_dev (update_dev q i f) j ≡ (if i == j then Option.map f (find_dev q j) else find_dev q j)
unfolding find_dev update_dev
find_dev-update_dev [] i j f h = ground arith
find_dev-update_dev (d ∷ q) i j f h = ground (arith, h d, find_dev-update_dev q i j f h)

pub find_dev-id : (q : List Dev) (i : ℕ) (d : Dev) → find_dev q i ≡ some d → d.id ≡ i
unfolding find_dev
find_dev-id [] i d h = cc
find_dev-id (x ∷ q) i d h = ground (arith, find_dev-id q i d)

module _ {κ} (P : Dev → Type κ) where
  -- What holds of every device holds of the one that is found.
  pub find_dev-All : (q : List Dev) (i : ℕ) (d : Dev) → All P q → find_dev q i ≡ some d → P d
  unfolding find_dev
  find_dev-All [] i d h e = absurd (cc)
  find_dev-All (x ∷ q) i d h e = elim (Bool-cases (x.id == i)) [
    | inl hit ↦ let same : x ≡ d = ground arith in subst P same h.0
    | inr miss ↦ find_dev-All q i d h.1 (ground arith)
  ]

  pub update_dev-All :
      (q : List Dev) (i : ℕ) (f : Dev → Dev)
      → ((d : Dev) → P d → P (f d))
      → All P q
      → All P (update_dev q i f)
  unfolding update_dev
  update_dev-All [] i f k h = tt
  update_dev-All (x ∷ q) i f k h = elim (Bool-cases (x.id == i)) [
    | inl hit ↦ rw hit (k x h.0, h.1)
    | inr miss ↦ rw miss (h.0, update_dev-All q i f k h.1)
  ]
