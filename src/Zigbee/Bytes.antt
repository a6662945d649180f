-- ===== src/Zigbee/Bytes.antt =====
-- The first bytes of an array, as a list, for the frames of core_daemon/driver_cg_zigbee.c.
use hsbsw.Prelude.{ℕ, zero, suc, ◌<◌, ◌≡◌, refl, sym, ap, ◌∙◌, arith, List, [], ◌∷◌, length, get_or}

-- `n` values of a function
abbrev pub first_bytes : ℕ → (ℕ → ℕ) → List ℕ
first_bytes zero f = []
first_bytes (suc n) f = f 0 ∷ first_bytes n (λ i. f (suc i))

pub length-first_bytes : (n : ℕ) (f : ℕ → ℕ) → length (first_bytes n f) ≡ n
length-first_bytes zero f = refl
length-first_bytes (suc n) f = ap suc (length-first_bytes n (λ i. f (suc i)))

pub first_bytes-cong :
    (n : ℕ) (f g : ℕ → ℕ) → ((i : ℕ) → i < n → f i ≡ g i) → first_bytes n f ≡ first_bytes n g
first_bytes-cong zero f g h = refl
first_bytes-cong (suc n) f g h =
    rw
      (
        h 0 (omega arith),
        first_bytes-cong n (λ i. f (suc i)) (λ i. g (suc i)) (λ i k. h (suc i) (omega (arith, k))),
      )
      refl

pub get_or-first_bytes : (n i : ℕ) (f : ℕ → ℕ) → i < n → get_or (first_bytes n f) i 0 ≡ f i
get_or-first_bytes zero i f h = absurd (omega arith)
get_or-first_bytes (suc n) zero f h = refl
get_or-first_bytes (suc n) (suc i) f h = get_or-first_bytes n i (λ j. f (suc j)) (omega arith)

-- Two arrays with the same first bytes.
pub same_byte :
    (n m : ℕ) (f g : ℕ → ℕ) (i : ℕ) → first_bytes n f ≡ first_bytes m g → i < n → i < m → f i ≡ g i
same_byte n m f g i e h k =
    sym (get_or-first_bytes n i f h) ∙ ap (λ l. get_or l i 0) e ∙ get_or-first_bytes m i g k
