-- ===== src/SmartConfig/Table.antt =====
-- What the loops of `make_code` of misc/smart_config.c write.
use Prim.Native.Nat.{bit_xor}
use hsbsw.Prelude.{
  ℕ, zero, suc, ◌+◌, ◌*◌, ◌%◌, ◌≤◌, ◌<◌, ◌≡◌, ◌⊎◌, inl, inr, ◌∙◌, refl, ap, arith, List, [], ◌∷◌,
  true, false, ◌==◌, if◌then◌else◌, get_or, get_or-set, set, length, length-set,
}
use hsbsw.SmartConfig.{Triple, data_triple, make_data_code, Coded, add_code, add_codes}

-- The three lengths at an index.
abbrev pub at : List ℕ → ℕ → Triple
at cs k = record {
  high = get_or cs (k * 3) 0;
  middle = get_or cs (k * 3 + 1) 0;
  low = get_or cs (k * 3 + 2) 0;
}

abbrev put : List ℕ → ℕ → Triple → List ℕ
put cs n t = set (set (set cs (n * 3) t.high) (n * 3 + 1) t.middle) (n * 3 + 2) t.low

length-put : (cs : List ℕ) (n : ℕ) (t : Triple) → length (put cs n t) ≡ length cs
length-put cs n t =
    length-set (set (set cs (n * 3) t.high) (n * 3 + 1) t.middle) (n * 3 + 2) t.low
    ∙ length-set (set cs (n * 3) t.high) (n * 3 + 1) t.middle
    ∙ length-set cs (n * 3) t.high

at-put :
    (cs : List ℕ) (n k : ℕ) (t : Triple)
    → length cs ≡ 1024
    → n < 256
    → at (put cs n t) k ≡ (if k == n then t else at cs k)
at-put cs n k t len small =
    let a = set cs (n * 3) t.high in
    let b = set a (n * 3 + 1) t.middle in
    let r = length-set cs (n * 3) t.high in
    let s = length-set a (n * 3 + 1) t.middle in
    let get = λ (i : ℕ). get_or-set cs (n * 3) i t.high 0 (omega arith) in
    let get' = λ (i : ℕ). get_or-set a (n * 3 + 1) i t.middle 0 (omega arith) in
    let get'' = λ (i : ℕ). get_or-set b (n * 3 + 2) i t.low 0 (omega arith) in
    ground (
      arith,
      get (k * 3),
      get' (k * 3),
      get'' (k * 3),
      get (k * 3 + 1),
      get' (k * 3 + 1),
      get'' (k * 3 + 1),
      get (k * 3 + 2),
      get' (k * 3 + 2),
      get'' (k * 3 + 2),
    )

make_data_code-put :
    (word n : ℕ) (cs : List ℕ) → n < 256 → make_data_code word n cs ≡ put cs n (data_triple word n)
unfolding make_data_code
make_data_code-put word n cs h = let e : n % 256 ≡ n = omega arith in rw e refl

pub at-make_data_code :
    (word n k : ℕ) (cs : List ℕ)
    → n < 256
    → length cs ≡ 1024
    → at (make_data_code word n cs) k ≡ (if k == n then data_triple word n else at cs k)
at-make_data_code word n k cs h len =
    ap (λ c. at c k) (make_data_code-put word n cs h) ∙ at-put cs n k (data_triple word n) len h

length-make_data_code : (word n : ℕ) (cs : List ℕ) → length (make_data_code word n cs) ≡ length cs
unfolding make_data_code
length-make_data_code word n cs = length-put cs (n % 256) (data_triple word (n % 256))

pub length-add_codes :
    (bs : List ℕ) (n : ℕ) (c : Coded) → length (add_codes bs n c).data_code ≡ length c.data_code
unfolding add_codes add_code
length-add_codes [] n c = refl
length-add_codes (b ∷ bs) n c =
    length-add_codes bs (suc n) (add_code b n c) ∙ length-make_data_code b n c.data_code

-- The loop leaves the other indexes as they are.
pub at-add_codes_out :
    (bs : List ℕ) (n k : ℕ) (c : Coded)
    → n + length bs ≤ 256
    → length c.data_code ≡ 1024
    → (k < n) ⊎ (n + length bs ≤ k)
    → at (add_codes bs n c).data_code k ≡ at c.data_code k
unfolding add_codes add_code
at-add_codes_out [] n k c h len out = refl
at-add_codes_out (b ∷ bs) n k c h len out =
    let c' = add_code b n c in
    let len' : length c'.data_code ≡ 1024 = length-make_data_code b n c.data_code ∙ len in
    let out' : (k < suc n) ⊎ (suc n + length bs ≤ k) = elim out [
      | inl l ↦ inl (omega arith)
      | inr l ↦ inr (omega arith)
    ] in
    let other : (k == n) ≡ false = elim out [ inl l ↦ ground arith | inr l ↦ ground arith ] in
    at-add_codes_out bs (suc n) k c' (omega arith) len' out'
    ∙ at-make_data_code b n k c.data_code (omega arith) len
    ∙ rw other refl

-- The loop writes its values, in order.
pub at-add_codes :
    (bs : List ℕ) (n j : ℕ) (c : Coded)
    → n + length bs ≤ 256
    → length c.data_code ≡ 1024
    → j < length bs
    → at (add_codes bs n c).data_code (n + j) ≡ data_triple (get_or bs j 0) (n + j)
unfolding add_codes add_code
at-add_codes [] n j c h len l = elim l [ ]
at-add_codes (b ∷ bs) n zero c h len l =
    let c' = add_code b n c in
    let e : n + 0 ≡ n = omega arith in
    let own : (n == n) ≡ true = ground arith in
    rw e (
      at-add_codes_out bs (suc n) n c' (omega arith) (length-make_data_code b n c.data_code ∙ len)
        (inl (omega arith))
      ∙ at-make_data_code b n n c.data_code (omega arith) len
      ∙ rw own refl)
at-add_codes (b ∷ bs) n (suc j) c h len l =
    let e : n + suc j ≡ suc n + j = omega arith in
    rw e (
      at-add_codes bs (suc n) j (add_code b n c) (omega arith)
        (length-make_data_code b n c.data_code ∙ len) (omega arith))

-- All values, one xored to the other.
abbrev pub xor_all : List ℕ → ℕ → ℕ
xor_all [] acc = acc
xor_all (b ∷ bs) acc = xor_all bs (bit_xor acc b)

pub add_codes-total_xor :
    (bs : List ℕ) (n : ℕ) (c : Coded) → (add_codes bs n c).total_xor ≡ xor_all bs c.total_xor
unfolding add_codes add_code
add_codes-total_xor [] n c = refl
add_codes-total_xor (b ∷ bs) n c = add_codes-total_xor bs (suc n) (add_code b n c)
