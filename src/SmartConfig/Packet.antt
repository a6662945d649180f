-- ===== src/SmartConfig/Packet.antt =====
-- The whole of `data_code` after `make_code` of misc/smart_config.c, as a receiver reads it.
use hsbsw.Prelude.{
  ℕ, ◌+◌, ◌*◌, ◌%◌, ◌^◌, ◌<◌, ◌≡◌, ◌≢◌, inl, ◌∙◌, refl, sym, ap, arith, List, [], ◌∷◌, ◌++◌, Bool,
  false, ◌==◌, if◌then◌else◌, get_or, length, length-map, map,
}
use mathlib.Core.Path.{subst}
use native.Mathlib.Nat.{zero-add}
use hsbsw.SmartConfig.{crc8, data_triple, make_data_code, Coded, add_codes, widen, Codes, make_code}
use hsbsw.SmartConfig.Crc.{serial, serial-lt}
use hsbsw.SmartConfig.Table.{
  at, at-make_data_code, at-add_codes, at-add_codes_out, length-add_codes, xor_all,
  add_codes-total_xor,
}
use hsbsw.SmartConfig.Carries.{
  Bytes, Carries, take-length, take_all, crc8-take, xor_all-widen, xor_all-append, get_or-map-widen,
  get_or-lt, received-eq,
}

module _ (signed : Bool) (ssid pwd ip bssid data_code : List ℕ)
    (room : 9 + length pwd + length ssid < 256) (four : length ip ≡ 4) (six : length bssid ≡ 6)
    (array : length data_code ≡ 1024)
    (bytes : Bytes ssid × Bytes pwd × Bytes ip × Bytes bssid) where
  abbrev lens : List ℕ
  lens = (9 + length pwd + length ssid) ∷ length pwd ∷ serial ssid 0 ∷ serial bssid 0 ∷ []

  abbrev chars : List ℕ → List ℕ
  chars bs = map (widen signed) bs

  abbrev coded₁ : Coded
  coded₁ = add_codes lens 0 (record { data_code = data_code; total_xor = 0 })

  abbrev coded₂ : Coded
  coded₂ = add_codes ip 5 coded₁

  abbrev coded₃ : Coded
  coded₃ = add_codes (chars pwd) 9 coded₂

  abbrev coded₄ : Coded
  coded₄ = add_codes (chars ssid) (9 + length pwd) coded₃

  make_code-coded : make_code signed ssid pwd ip bssid data_code ≡ record {
    data_code = make_data_code coded₄.total_xor 4 coded₄.data_code;
    dc_len = (9 + length pwd) * 3;
  }
  unfolding make_code
  make_code-coded =
      let p : length pwd % 2 ^ 16 ≡ length pwd = omega arith in
      let s : length ssid % 2 ^ 16 ≡ length ssid = omega arith in
      let t : (5 + 4 + length pwd + length ssid) % 2 ^ 16 ≡ 9 + length pwd + length ssid =
        omega arith in
      let c : crc8 ssid 0 (length ssid) ≡ serial ssid 0 =
        crc8-take ssid (length ssid) refl bytes.0 in
      let d : crc8 bssid 0 6 ≡ serial bssid 0 = crc8-take bssid 6 six bytes.3 in
      rw (p, s, t, c, d, take_all ip 4 four, take-length pwd, take-length ssid) refl

  size₁ : length coded₁.data_code ≡ 1024
  size₁ = length-add_codes lens 0 _ ∙ array

  size₂ : length coded₂.data_code ≡ 1024
  size₂ = length-add_codes ip 5 coded₁ ∙ size₁

  size₃ : length coded₃.data_code ≡ 1024
  size₃ = length-add_codes (chars pwd) 9 coded₂ ∙ size₂

  size₄ : length coded₄.data_code ≡ 1024
  size₄ = length-add_codes (chars ssid) (9 + length pwd) coded₃ ∙ size₃

  -- The parts that are written later leave an index alone.
  from₃ : (k : ℕ) → k < 9 + length pwd → at coded₄.data_code k ≡ at coded₃.data_code k
  from₃ k h =
      at-add_codes_out (chars ssid) (9 + length pwd) k coded₃
        (omega (arith, length-map ssid (widen signed))) size₃ (inl h)

  from₂ : (k : ℕ) → k < 9 → at coded₄.data_code k ≡ at coded₂.data_code k
  from₂ k h =
      from₃ k (omega arith)
      ∙ at-add_codes_out (chars pwd) 9 k coded₂ (omega (arith, length-map pwd (widen signed))) size₂
          (inl h)

  from₁ : (k : ℕ) → k < 5 → at coded₄.data_code k ≡ at coded₁.data_code k
  from₁ k h = from₂ k (omega arith) ∙ at-add_codes_out ip 5 k coded₁ (omega arith) size₁ (inl h)

  -- `data_code`, as `make_code` leaves it.
  abbrev codes : List ℕ
  codes = (make_code signed ssid pwd ip bssid data_code).data_code

  codes-at :
      (k : ℕ)
      → at codes k ≡ (if k == 4 then data_triple coded₄.total_xor 4 else at coded₄.data_code k)
  codes-at k =
      ap (λ (c : Codes). at c.data_code k) make_code-coded
      ∙ at-make_data_code coded₄.total_xor 4 k coded₄.data_code (omega arith) size₄

  codes-at_ne : (k : ℕ) → k ≢ 4 → at codes k ≡ at coded₄.data_code k
  codes-at_ne k h = let f : (k == 4) ≡ false = ground arith in codes-at k ∙ rw f refl

  head-at : (j : ℕ) → j < 4 → at codes j ≡ data_triple (get_or lens j 0) j
  head-at j h =
      codes-at_ne j (omega arith)
      ∙ from₁ j (omega arith)
      ∙ subst (λ k. at coded₁.data_code k ≡ data_triple (get_or lens j 0) k) (zero-add j)
          (at-add_codes lens 0 j _ (omega arith) array h)

  -- The lower byte of `total_xor`.
  xor_low : coded₄.total_xor % 256 ≡ xor_all (lens ++ (ip ++ (pwd ++ ssid))) 0 % 256
  xor_low =
      let x₁ = add_codes-total_xor lens 0 (record { data_code = data_code; total_xor = 0 }) in
      let x₂ = add_codes-total_xor ip 5 coded₁ ∙ ap (xor_all ip) x₁ in
      let x₃ = add_codes-total_xor (chars pwd) 9 coded₂ ∙ ap (xor_all (chars pwd)) x₂ in
      let x₄ =
        add_codes-total_xor (chars ssid) (9 + length pwd) coded₃ ∙ ap (xor_all (chars ssid)) x₃ in
      let a = xor_all lens 0 in
      let b = xor_all ip a in
      let low =
        xor_all-widen signed ssid (xor_all (chars pwd) b) (xor_all pwd b)
          (xor_all-widen signed pwd b b refl) in
      let all = xor_all-append ip (pwd ++ ssid) a ∙ xor_all-append pwd ssid b in
      ap (λ v. v % 256) x₄ ∙ low ∙ ap (λ v. v % 256) (sym all)

  at-password :
      (j : ℕ) → j < length pwd → at codes (9 + j) ≡ data_triple (get_or (chars pwd) j 0) (9 + j)
  at-password j h =
      codes-at_ne (9 + j) (omega arith)
      ∙ from₃ (9 + j) (omega arith)
      ∙ at-add_codes (chars pwd) 9 j coded₂ (omega (arith, length-map pwd (widen signed))) size₂
          (omega (arith, length-map pwd (widen signed)))

  at-name :
      (j : ℕ)
      → j < length ssid
      → at codes (9 + length pwd + j) ≡ data_triple (get_or (chars ssid) j 0) (9 + length pwd + j)
  at-name j h =
      codes-at_ne (9 + length pwd + j) (omega arith)
      ∙ at-add_codes (chars ssid) (9 + length pwd) j coded₃
          (omega (arith, length-map ssid (widen signed))) size₃
          (omega (arith, length-map ssid (widen signed)))

  at-address : (j : ℕ) → j < 4 → at codes (5 + j) ≡ data_triple (get_or ip j 0) (5 + j)
  at-address j h =
      codes-at_ne (5 + j) (omega arith)
      ∙ from₂ (5 + j) (omega arith)
      ∙ at-add_codes ip 5 j coded₁ (omega arith) size₁ (omega arith)

  -- For a name and a password of together at most 246 bytes, an address of four bytes and an access
  -- point's of six, `make_code` leaves lengths of which a receiver reads the whole packet: its length,
  -- the length of the password, the checks, the address, the password and the name, with every check of
  -- a byte and its index met; whether a char is signed makes no difference. `dc_len` counts the
  -- lengths up to the end of the password.
  pub make_code-Carries :
      Carries codes ssid pwd ip bssid
      × ((make_code signed ssid pwd ip bssid data_code).dc_len ≡ (9 + length pwd) * 3)
  make_code-Carries = (
    record {
      total =
          received-eq codes 0 (9 + length pwd + length ssid) (9 + length pwd + length ssid)
            (omega arith) (head-at 0 (omega arith)) (omega arith);
      pwd_len =
          received-eq codes 1 (length pwd) (length pwd) (omega arith) (head-at 1 (omega arith))
            (omega arith);
      ssid_crc =
          received-eq codes 2 (serial ssid 0) (serial ssid 0) (omega arith)
            (head-at 2 (omega arith)) (omega (arith, serial-lt ssid 0 (omega arith)));
      bssid_crc =
          received-eq codes 3 (serial bssid 0) (serial bssid 0) (omega arith)
            (head-at 3 (omega arith)) (omega (arith, serial-lt bssid 0 (omega arith)));
      check = received-eq codes 4 coded₄.total_xor _ (omega arith) (codes-at 4) xor_low;
      address = λ j h.
          received-eq codes (5 + j) (get_or ip j 0) (get_or ip j 0) (omega arith) (at-address j h)
            (get_or-lt ip j bytes.2);
      password = λ j h.
          received-eq codes (9 + j) (get_or (chars pwd) j 0) (get_or pwd j 0) (omega arith)
            (at-password j h) (get_or-map-widen signed pwd j h bytes.1);
      name = λ j h.
          received-eq codes (9 + length pwd + j) (get_or (chars ssid) j 0) (get_or ssid j 0)
            (omega arith) (at-name j h) (get_or-map-widen signed ssid j h bytes.0);
    },
    ap (λ (c : Codes). c.dc_len) make_code-coded,
  )
