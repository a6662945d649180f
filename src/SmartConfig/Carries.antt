-- ===== src/SmartConfig/Carries.antt =====
-- What the codes of misc/smart_config.c are to carry, and lemmas on their bytes.
use Prim.Native.Nat.{bit_xor}
use hsbsw.Prelude.{
  ℕ, zero, suc, ◌+◌, ◌%◌, ◌<◌, ◌≡◌, ◌∙◌, refl, sym, ap, arith, List, [], ◌∷◌, ◌++◌, Option, some,
  Bool, get_or, length, take, map, All,
}
use mathlib.Core.Path.{subst}
use hsbsw.SmartConfig.{crc8, data_triple, widen}
use hsbsw.SmartConfig.Xor.{bit_xor-mod}
use hsbsw.SmartConfig.Crc.{serial, crc8-serial}
use hsbsw.SmartConfig.Receive.{decode, decode-data_triple}
use hsbsw.SmartConfig.Table.{at, xor_all}

abbrev pub Bytes : List ℕ → Type 0
Bytes bs = All (λ b. b < 256) bs

-- The byte at an index.
abbrev pub received : List ℕ → ℕ → Option (ℕ × ℕ)
received cs k = decode (at cs k)

-- The packet of a network's name, its password, an address and the access point's address: a length,
-- two checks, the exclusive or of all the rest, and the bytes.
pub record Carries (cs ssid pwd ip bssid : List ℕ) : Type 0 where
  pub total : received cs 0 ≡ some (9 + length pwd + length ssid, 0)
  pub pwd_len : received cs 1 ≡ some (length pwd, 1)
  pub ssid_crc : received cs 2 ≡ some (serial ssid 0, 2)
  pub bssid_crc : received cs 3 ≡ some (serial bssid 0, 3)
  pub check :
      received cs 4
      ≡ some (
        xor_all
              ((9 + length pwd + length ssid)
                ∷ length pwd
                ∷ serial ssid 0
                ∷ serial bssid 0
                ∷ (ip ++ (pwd ++ ssid)))
              0
            % 256,
        4,
      )
  pub address : (j : ℕ) → j < 4 → received cs (5 + j) ≡ some (get_or ip j 0, 5 + j)
  pub password : (j : ℕ) → j < length pwd → received cs (9 + j) ≡ some (get_or pwd j 0, 9 + j)
  pub name :
      (j : ℕ)
      → j < length ssid
      → received cs (9 + length pwd + j) ≡ some (get_or ssid j 0, 9 + length pwd + j)

pub take-length : (xs : List ℕ) → take (length xs) xs ≡ xs
take-length [] = refl
take-length (x ∷ xs) = ap (◌∷◌ x) (take-length xs)

pub take_all : (xs : List ℕ) (n : ℕ) → length xs ≡ n → take n xs ≡ xs
take_all xs n e = ap (λ k. take k xs) (sym e) ∙ take-length xs

pub crc8-take : (bs : List ℕ) (n : ℕ) → length bs ≡ n → Bytes bs → crc8 bs 0 n ≡ serial bs 0
crc8-take bs n e h =
    let t = take_all bs n e in crc8-serial bs 0 n (subst Bytes (sym t) h) ∙ ap (λ x. serial x 0) t

pub widen-low : (signed : Bool) (c : ℕ) → widen signed c % 256 ≡ c % 256
widen-low signed c = ground arith

pub low_eq : (x y v : ℕ) → x % 256 ≡ y % 256 → bit_xor x v % 256 ≡ bit_xor y v % 256
low_eq x y v e = bit_xor-mod 8 x v ∙ (λ i. bit_xor (e i) (v % 256)) ∙ sym (bit_xor-mod 8 y v)

pub low_eq' : (x v w : ℕ) → v % 256 ≡ w % 256 → bit_xor x v % 256 ≡ bit_xor x w % 256
low_eq' x v w e = bit_xor-mod 8 x v ∙ (λ i. bit_xor (x % 256) (e i)) ∙ sym (bit_xor-mod 8 x w)

-- What is beyond a char's byte does not reach the lower byte of the exclusive or.
pub xor_all-widen :
    (signed : Bool) (bs : List ℕ) (x y : ℕ)
    → x % 256 ≡ y % 256
    → xor_all (map (widen signed) bs) x % 256 ≡ xor_all bs y % 256
xor_all-widen signed [] x y e = e
xor_all-widen signed (b ∷ bs) x y e =
    xor_all-widen signed bs (bit_xor x (widen signed b)) (bit_xor y b)
      (low_eq' x (widen signed b) b (widen-low signed b) ∙ low_eq x y b e)

pub xor_all-append :
    (xs ys : List ℕ) (acc : ℕ) → xor_all (xs ++ ys) acc ≡ xor_all ys (xor_all xs acc)
xor_all-append [] ys acc = refl
xor_all-append (x ∷ xs) ys acc = xor_all-append xs ys (bit_xor acc x)

pub get_or-map-widen :
    (signed : Bool) (bs : List ℕ) (j : ℕ)
    → j < length bs
    → Bytes bs
    → get_or (map (widen signed) bs) j 0 % 256 ≡ get_or bs j 0
get_or-map-widen signed [] j l h = elim l [ ]
get_or-map-widen signed (b ∷ bs) zero l h = widen-low signed b ∙ omega (arith, h.0)
get_or-map-widen signed (b ∷ bs) (suc j) l h = get_or-map-widen signed bs j (omega arith) h.1

pub get_or-lt : (bs : List ℕ) (j : ℕ) → Bytes bs → get_or bs j 0 % 256 ≡ get_or bs j 0
get_or-lt [] j h = refl
get_or-lt (b ∷ bs) zero h = omega (arith, h.0)
get_or-lt (b ∷ bs) (suc j) h = get_or-lt bs j h.1

-- A triple that is that of a value is received as the value's byte.
pub received-eq :
    (cs : List ℕ) (k word byte : ℕ)
    → k < 256
    → at cs k ≡ data_triple word k
    → word % 256 ≡ byte
    → received cs k ≡ some (byte, k)
received-eq cs k word byte h e v =
    ap decode e ∙ decode-data_triple word k h ∙ ap (λ x. some (x, k)) v
