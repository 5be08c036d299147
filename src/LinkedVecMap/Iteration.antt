-- ===== src/LinkedVecMap/Iteration.antt =====
-- The iterator with its two ends: `next` from the oldest entry on, `next_back` from the newest.
use grid_server.Base.{
  ℕ, suc, ◌≡◌, refl, sym, ap, ◌∙◌, subst, false, Option, none, some, List, [], ◌∷◌, ◌++◌, arith,
  ◌==◌, if◌then◌else◌, ==_refl, length, append_assoc, append_nil, Run, ok, ◌>>=◌, checked_sub,
  Returns, returns, Returns-bind,
}
use grid_server.LinkedVecMap.{Node, LinkedVecMap, load, entry_at, len}
use grid_server.LinkedVecMap.Members.{
  mem-right, mem-left, mem, Distinct, mem_ne, Distinct-append_left, Distinct-append_right, last,
  last-append, ne_of_mem,
}
use grid_server.LinkedVecMap.Ring.{Item, addrs, addrs-append, next_of, prev_of, Chain-split}
use grid_server.LinkedVecMap.Links.{cell_of_next, cell_of_prev}
use grid_server.LinkedVecMap.Index.{length-middle, entries}
use grid_server.LinkedVecMap.Refinement.{LayoutOf, entry_at-ok}
use grid_server.LinkedVecMap.Ends.{oldest}

pub record Iter : Type 0 where
  pub head : ℕ
  pub tail : ℕ
  pub remaining : ℕ

abbrev pub iter_of : ℕ → ℕ → ℕ → Iter
iter_of h t r = record { head = h; tail = t; remaining = r }

pub iter_eq : {h h' t t' r r' : ℕ} → h ≡ h' → t ≡ t' → r ≡ r' → iter_of h t r ≡ iter_of h' t' r'
iter_eq {h} {h'} {t} {t'} {r} {r'} a b c =
    ap (λ h. iter_of h t r) a ∙ ap (λ t. iter_of h' t r) b ∙ ap (iter_of h' t') c

less : (n : ℕ) → checked_sub (suc n) 1 ≡ ok n
less n = ground arith

one_less : (n : ℕ) → Returns (λ r. r ≡ n) (checked_sub (suc n) 1)
one_less n = rw (less n) (returns refl)

module _ {V : Type 0} where
  unfoldable pub iter_ends : LinkedVecMap V → Run Iter
  unfolding load len
  iter_ends m =
      if m.head == 0 then ok (record { head = 0; tail = m.head; remaining = len m }) else (do
        guard ← load m m.head
        ok (record { head = guard.prev; tail = m.head; remaining = len m }))

  unfoldable pub next : LinkedVecMap V → Iter → Run (Option (ℕ × V) × Iter)
  unfolding entry_at load
  next m it = if it.head == it.tail then ok (none, it) else (do
    remaining ← checked_sub it.remaining 1
    e ← entry_at m it.head
    node ← load m it.head
    ok (some e, record { head = node.prev; tail = it.tail; remaining = remaining }))

  unfoldable pub next_back : LinkedVecMap V → Iter → Run (Option (ℕ × V) × Iter)
  unfolding entry_at load
  next_back m it = if it.head == it.tail then ok (none, it) else (do
    remaining ← checked_sub it.remaining 1
    node ← load m it.tail
    e ← entry_at m node.next
    ok (some e, record { head = it.head; tail = node.next; remaining = remaining }))

  abbrev pub first_or : ℕ → List (Item V) → ℕ
  first_or a [] = a
  first_or a (x ∷ xs) = x.addr

  -- The iterator before the items `ms`, which `zs` follow.
  abbrev pub iter_at : LinkedVecMap V → List (Item V) → List (Item V) → Iter
  iter_at m ms zs = record {
    head = first_or (first_or m.head zs) ms;
    tail = first_or m.head zs;
    remaining = length ms;
  }

  abbrev pub tail_of : List (Item V) → List (Item V)
  tail_of [] = []
  tail_of (x ∷ xs) = xs

  following :
      (m : LinkedVecMap V) (ys : List (Item V)) (x : Item V) (zs : List (Item V)) (fs : List ℕ)
      → LayoutOf m (ys ++ x ∷ zs) fs
      → prev_of (m.cells x.addr) ≡ some (first_or m.head zs)
  following m ys x [] fs l =
      let end : last m.head (addrs (ys ++ x ∷ [])) ≡ x.addr =
        ap (last m.head) (addrs-append ys (x ∷ [])) ∙ last-append m.head (addrs ys) (x.addr ∷ []) in
      ap (λ a. prev_of (m.cells a)) (sym end) ∙ l.ring.close_prev
  following m ys x (z ∷ zs) fs l = (Chain-split m.cells m.head ys (x ∷ z ∷ zs) l.ring.path).1.3.0

  preceding :
      (m : LinkedVecMap V) (ys zs : List (Item V)) (fs : List ℕ)
      → LayoutOf m (ys ++ zs) fs
      → next_of (m.cells (first_or m.head zs)) ≡ some (last m.head (addrs ys))
  preceding m ys [] fs l =
      l.ring.close_next ∙ ap (λ ys. some (last m.head (addrs ys))) (sym (append_nil ys))
  preceding m ys (z ∷ zs) fs l = (Chain-split m.cells m.head ys (z ∷ zs) l.ring.path).1.1

  first_or-append :
      (a : ℕ) (ms zs : List (Item V)) → first_or a (ms ++ zs) ≡ first_or (first_or a zs) ms
  first_or-append a [] zs = refl
  first_or-append a (x ∷ ms) zs = refl

  -- An item is not at the address where those behind it begin.
  first_apart :
      (m : LinkedVecMap V) (ys : List (Item V)) (x : Item V) (ms zs : List (Item V)) (fs : List ℕ)
      → LayoutOf m (ys ++ (x ∷ ms ++ zs)) fs
      → (x.addr == first_or m.head zs) ≡ false
  first_apart m ys x ms [] fs l =
      mem_ne x.addr m.head (addrs (ys ++ (x ∷ ms ++ [])) ++ fs)
        (mem-left x.addr (addrs (ys ++ (x ∷ ms ++ []))) fs (
          ap (mem x.addr) (addrs-append ys (x ∷ ms ++ []))
          ∙ mem-right x.addr (addrs ys) (addrs (x ∷ ms ++ [])) (ground arith)))
        l.distinct.0
  first_apart m ys x ms (z ∷ zs) fs l =
      let left = Distinct-append_left (addrs (ys ++ (x ∷ ms ++ z ∷ zs))) fs l.distinct.1 in
      let split = subst Distinct (addrs-append ys (x ∷ ms ++ z ∷ zs)) left in
      let right = Distinct-append_right (addrs ys) (addrs (x ∷ ms ++ z ∷ zs)) split in
      ne_of_mem x.addr z.addr (addrs (ms ++ z ∷ zs)) right.0 (
        ap (mem z.addr) (addrs-append ms (z ∷ zs))
        ∙ mem-right z.addr (addrs ms) (addrs (z ∷ zs)) (ground arith))

  found_at :
      (m : LinkedVecMap V) (p : ℕ) (n : Node V)
      → m.cells p ≡ some n
      → Returns (λ r. r ≡ n) (load m p)
  unfolding load
  found_at m p n e = rw e (returns refl)

  -- `next` yields the oldest of the items that are left.
  pub next_lem :
      (m : LinkedVecMap V) (ys ms zs : List (Item V)) (fs : List ℕ)
      → LayoutOf m (ys ++ (ms ++ zs)) fs
      → Returns {A = Option (ℕ × V) × Iter}
          (λ r. (r.0 ≡ oldest (entries ms)) × (r.1 ≡ iter_at m (tail_of ms) zs))
          (next m (iter_at m ms zs))
  unfolding next
  next_lem m ys [] zs fs l = rw (==_refl (first_or m.head zs), next) (returns (refl, refl))
  next_lem m ys (x ∷ ms) zs fs l =
      let (n, at_x, is_next) =
        cell_of_prev (m.cells x.addr) (first_or m.head (ms ++ zs))
          (following m ys x (ms ++ zs) fs l) in
      rw (first_apart m ys x ms zs fs l, next)
        (Returns-bind (one_less (length ms)) (λ remaining is_less.
          rw (entry_at-ok m ys x (ms ++ zs) fs l) (
            Returns-bind (found_at m x.addr n at_x) (λ n' is_n. returns (
              refl,
              iter_eq (ap (λ n. n.prev) is_n ∙ is_next ∙ first_or-append m.head ms zs) refl is_less,
            )))))

  -- `next_back` yields the newest of the items that are left.
  pub next_back_lem :
      (m : LinkedVecMap V) (ys : List (Item V)) (x : Item V) (ms zs : List (Item V)) (fs : List ℕ)
      (ns : List (Item V)) (y : Item V)
      → x ∷ ms ≡ ns ++ y ∷ []
      → LayoutOf m (ys ++ (x ∷ ms ++ zs)) fs
      → Returns {A = Option (ℕ × V) × Iter}
          (λ r. (r.0 ≡ some (y.key, y.val)) × (r.1 ≡ iter_at m ns (y ∷ zs)))
          (next_back m (iter_at m (x ∷ ms) zs))
  unfolding next_back
  next_back_lem m ys x ms zs fs ns y parts l =
      let joined : ys ++ (x ∷ ms ++ zs) ≡ (ys ++ (x ∷ ms)) ++ zs =
        sym (append_assoc ys (x ∷ ms) zs) in
      let around : ys ++ (x ∷ ms ++ zs) ≡ (ys ++ ns) ++ y ∷ zs =
        ap (λ l. ys ++ (l ++ zs)) parts
        ∙ ap (λ l. ys ++ l) (append_assoc ns (y ∷ []) zs)
        ∙ sym (append_assoc ys ns (y ∷ zs)) in
      let ends : last m.head (addrs (ys ++ (x ∷ ms))) ≡ y.addr =
        ap (last m.head) (
          addrs-append ys (x ∷ ms)
          ∙ ap (λ l. addrs ys ++ addrs l) parts
          ∙ ap (λ l. addrs ys ++ l) (addrs-append ns (y ∷ [])))
        ∙ last-append m.head (addrs ys) (addrs ns ++ y.addr ∷ [])
        ∙ last-append (last m.head (addrs ys)) (addrs ns) (y.addr ∷ []) in
      let (n, at_tail, is_last) =
        cell_of_next (m.cells (first_or m.head zs)) (last m.head (addrs (ys ++ (x ∷ ms))))
          (preceding m (ys ++ (x ∷ ms)) zs fs (subst (λ l. LayoutOf m l fs) joined l)) in
      rw (first_apart m ys x ms zs fs l, next_back)
        (Returns-bind (one_less (length ms)) (λ remaining is_less.
          Returns-bind (found_at m (first_or m.head zs) n at_tail) (λ n' is_n.
            let is_y : n'.next ≡ y.addr = ap (λ n. n.next) is_n ∙ is_last ∙ ends in
            rw is_y (
              rw (entry_at-ok m (ys ++ ns) y zs fs (subst (λ l. LayoutOf m l fs) around l)) (
                returns (
                  refl,
                  iter_eq (ap (first_or y.addr) parts ∙ first_or-append y.addr ns (y ∷ [])) refl (
                      is_less
                      ∙ omega (
                        arith,
                        ap length parts,
                        length-middle ns y [],
                        ap length (append_nil ns),
                      )),
                ))))))

  pub next_back_done :
      (m : LinkedVecMap V) (zs : List (Item V))
      → Returns {A = Option (ℕ × V) × Iter}
          (λ r. (r.0 ≡ none) × (r.1 ≡ iter_at m [] zs))
          (next_back m (iter_at m [] zs))
  unfolding next_back
  next_back_done m zs = rw (==_refl (first_or m.head zs), next_back) (returns (refl, refl))
