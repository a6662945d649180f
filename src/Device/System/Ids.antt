-- ===== src/Device/System/Ids.antt =====
-- The ids of the devices of core_daemon/device.c and their counter, as devices move between the queues.
use mathlib.Core.List.{
  Mem, Nodup, Nodup-cons, Perm, perm_append_singleton, perm_middle, append_assoc, mem-cons,
}
use mathlib.Core.List.Perm
use mathlib.Core.Logic.Or
use native.Mathlib.Bridge.{le_prop}
use hsbsw.Prelude.{
  ℕ, ◌+◌, ◌<◌, ◌≡◌, refl, ap, List, [], ◌∷◌, ◌++◌, some, All, arith, get_elem?, zero, suc,
}
use hsbsw.Device.Types.{Dev}
use hsbsw.Device.Find.{get_dev_id_list, update_dev}
use hsbsw.Device.Registry.{pop_nth}
use hsbsw.Device.Registry.Queue.{pop_nth-perm}

-- The ids are distinct and below `next`.
pub record AreIds (ids : List ℕ) (next : ℕ) : Type 0 where
  pub distinct : Nodup ids
  pub fresh : (i : ℕ) → Mem i ids → i < next

pub AreIds-perm : {a b : List ℕ} {n : ℕ} → Perm a b → AreIds a n → AreIds b n
AreIds-perm p h = record {
  distinct = Perm.nodup p h.distinct;
  fresh = λ i m. h.fresh i (Perm.subset (Perm.symm p) i m);
}

-- The counter's own value is a new id.
pub AreIds-cons : {a : List ℕ} {n : ℕ} → AreIds a n → AreIds (n ∷ a) (n + 1)
AreIds-cons {a} {n} h = record {
  distinct = Nodup-cons.1 ((λ m. absurd (omega (arith, h.fresh n m))), h.distinct);
  fresh =
      λ i m. Or.elim le_prop (mem-cons.0 m) (λ e. omega arith) (λ m'. omega (arith, h.fresh i m'));
}

-- Without one of them they still are.
pub AreIds-tail : {i n : ℕ} {a : List ℕ} → AreIds (i ∷ a) n → AreIds a n
AreIds-tail h = record {
  distinct = (Nodup-cons.0 h.distinct).1;
  fresh = λ j m. h.fresh j (mem-cons.1 (Or.inr m));
}

pub ids-append :
    (p q : List Dev) → get_dev_id_list (p ++ q) ≡ get_dev_id_list p ++ get_dev_id_list q
unfolding get_dev_id_list
ids-append [] q = refl
ids-append (d ∷ p) q = ap (λ l. d.id ∷ l) (ids-append p q)

pub ids-update_dev :
    (q : List Dev) (i : ℕ) (f : Dev → Dev)
    → ((d : Dev) → (f d).id ≡ d.id)
    → get_dev_id_list (update_dev q i f) ≡ get_dev_id_list q
unfolding get_dev_id_list update_dev
ids-update_dev [] i f h = refl
ids-update_dev (d ∷ q) i f h = ground (arith, h d, ids-update_dev q i f h)

abbrev pub both : List Dev → List Dev → List ℕ
both p q = get_dev_id_list p ++ get_dev_id_list q

-- A device goes from the first queue to the end of the second.
pub both_goes :
    (p q : List Dev) (n : ℕ) (d : Dev)
    → get_elem? p n ≡ some d
    → Perm (both p q) (both (pop_nth p n) (q ++ (d ∷ [])))
unfolding get_dev_id_list
both_goes p q n d e =
    rw (ids-append q (d ∷ []), ← append_assoc)
      (Perm.trans (Perm.append_right (get_dev_id_list q) (pop_nth-perm p n d e))
        (Perm.symm (perm_append_singleton d.id (both (pop_nth p n) q))))

-- A device leaves the first queue.
pub both_drops :
    (p q : List Dev) (n : ℕ) (d : Dev)
    → get_elem? p n ≡ some d
    → Perm (both p q) (d.id ∷ both (pop_nth p n) q)
both_drops p q n d e = Perm.append_right (get_dev_id_list q) (pop_nth-perm p n d e)

-- A device comes back from the second queue to the end of the first.
pub both_comes_back :
    (p q : List Dev) (n : ℕ) (d : Dev)
    → get_elem? q n ≡ some d
    → Perm (both p q) (both (p ++ (d ∷ [])) (pop_nth q n))
unfolding get_dev_id_list
both_comes_back p q n d e =
    rw (ids-append p (d ∷ []), append_assoc)
      (Perm.append_left (get_dev_id_list p) (pop_nth-perm q n d e))

-- A new device is put at the end of the first queue.
pub both_new : (p q : List Dev) (d : Dev) → Perm (d.id ∷ both p q) (both (p ++ (d ∷ [])) q)
unfolding get_dev_id_list
both_new p q d =
    rw (ids-append p (d ∷ []), append_assoc)
      (Perm.symm (perm_middle (get_dev_id_list p) (get_dev_id_list q)))

module _ {κ} (P : Dev → Type κ) where
  pub pop_nth-All : (q : List Dev) (n : ℕ) → All P q → All P (pop_nth q n)
  unfolding pop_nth
  pop_nth-All [] n h = tt
  pop_nth-All (d ∷ q) zero h = h.1
  pop_nth-All (d ∷ q) (suc n) h = (h.0, pop_nth-All q n h.1)
