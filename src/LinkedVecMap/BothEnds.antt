-- ===== src/LinkedVecMap/BothEnds.antt =====
-- Taking the entries from both ends of the iterator.
use grid_server.Base.{
  ℕ, ◌≡◌, refl, sym, ap, ◌∙◌, subst, Bool, true, false, Option, none, some, List, [], ◌∷◌, ◌++◌,
  ◌==◌, ==_iff, length, append_assoc, append_nil, Run, ok, ◌>>=◌, Returns, returns, Returns-bind,
}
use grid_server.LinkedVecMap.{LinkedVecMap, load, len}
use grid_server.LinkedVecMap.Ring.{Item, prev_of}
use grid_server.LinkedVecMap.Links.{cell_of_prev}
use grid_server.LinkedVecMap.Index.{entries, entries-append, length-entries}
use grid_server.LinkedVecMap.Refinement.{LayoutOf, Represents, linked, unguarded, head-guarded}
use grid_server.LinkedVecMap.Ends.{
  oldest, without_oldest, newest, without_newest, newest-snoc, without_newest-snoc, last_item,
  len_lem,
}
use grid_server.LinkedVecMap.Iteration.{
  Iter, next, next_back, iter_ends, first_or, iter_at, iter_of, iter_eq, next_lem, next_back_lem,
  next_back_done,
}

module _ {V : Type 0} where
  -- A client that takes from the end that each flag names, `true` for the oldest.
  unfoldable pub take_ends : LinkedVecMap V → Iter → List Bool → Run (List (Option (ℕ × V)))
  unfolding next next_back
  take_ends m it [] = ok []
  take_ends m it (true ∷ flags) = do
    (e, it') ← next m it
    rest ← take_ends m it' flags
    ok (e ∷ rest)
  take_ends m it (false ∷ flags) = do
    (e, it') ← next_back m it
    rest ← take_ends m it' flags
    ok (e ∷ rest)

  abbrev pub ends_of : List (ℕ × V) → List Bool → List (Option (ℕ × V))
  ends_of es [] = []
  ends_of es (true ∷ flags) = oldest es ∷ ends_of (without_oldest es) flags
  ends_of es (false ∷ flags) = newest es ∷ ends_of (without_newest es) flags

  take_ends_lem :
      (m : LinkedVecMap V) (ys ms zs : List (Item V)) (fs : List ℕ) (flags : List Bool)
      → LayoutOf m (ys ++ (ms ++ zs)) fs
      → Returns (λ r. r ≡ ends_of (entries ms) flags) (take_ends m (iter_at m ms zs) flags)
  unfolding take_ends
  take_ends_lem m ys ms zs fs [] l = returns refl
  take_ends_lem m ys [] zs fs (true ∷ flags) l =
      Returns-bind (next_lem m ys [] zs fs l) (λ (e, it) (is_e, is_it). rw is_it (
        Returns-bind (take_ends_lem m ys [] zs fs flags l)
          (λ rest same. returns (cc (is_e, same)))))
  take_ends_lem m ys (x ∷ ms) zs fs (true ∷ flags) l =
      let shift : ys ++ (x ∷ ms ++ zs) ≡ (ys ++ x ∷ []) ++ (ms ++ zs) =
        sym (append_assoc ys (x ∷ []) (ms ++ zs)) in
      Returns-bind (next_lem m ys (x ∷ ms) zs fs l) (λ (e, it) (is_e, is_it). rw is_it (
        Returns-bind
          (take_ends_lem m (ys ++ x ∷ []) ms zs fs flags (subst (λ l. LayoutOf m l fs) shift l))
          (λ rest same. returns (cc (is_e, same)))))
  take_ends_lem m ys [] zs fs (false ∷ flags) l =
      Returns-bind (next_back_done m zs) (λ (e, it) (is_e, is_it). rw is_it (
        Returns-bind (take_ends_lem m ys [] zs fs flags l)
          (λ rest same. returns (cc (is_e, same)))))
  take_ends_lem m ys (x ∷ ms) zs fs (false ∷ flags) l =
      let (ns, y, parts, _) = last_item m.head x ms in
      let split : entries (x ∷ ms) ≡ entries ns ++ (y.key, y.val) ∷ [] =
        ap entries parts ∙ entries-append ns (y ∷ []) in
      let shift : ys ++ (x ∷ ms ++ zs) ≡ ys ++ (ns ++ y ∷ zs) =
        ap (λ l. ys ++ (l ++ zs)) parts ∙ ap (λ l. ys ++ l) (append_assoc ns (y ∷ []) zs) in
      Returns-bind (next_back_lem m ys x ms zs fs ns y parts l) (λ (e, it) (is_e, is_it). rw is_it (
        Returns-bind
          (take_ends_lem m ys ns (y ∷ zs) fs flags (subst (λ l. LayoutOf m l fs) shift l))
          (λ rest same.
            let first : e ≡ newest (entries (x ∷ ms)) =
              is_e ∙ sym (ap newest split ∙ newest-snoc (entries ns) (y.key, y.val)) in
            let others : entries ns ≡ without_newest (entries (x ∷ ms)) =
              sym (ap without_newest split ∙ without_newest-snoc (entries ns) (y.key, y.val)) in
            returns (
              ap (λ e. e ∷ rest) first
              ∙ ap (◌∷◌ (newest (entries (x ∷ ms)))) (same ∙ ap (λ es. ends_of es flags) others)))))

  take_done :
      (m : LinkedVecMap V) (it : Iter) (flags : List Bool)
      → (it.head == it.tail) ≡ true
      → Returns (λ r. r ≡ ends_of [] flags) (take_ends m it flags)
  unfolding take_ends next next_back
  take_done m it [] e = returns refl
  take_done m it (true ∷ flags) e =
      rw (e, next)
        (Returns-bind (take_done m it flags e) (λ rest same. returns (ap (λ r. none ∷ r) same)))
  take_done m it (false ∷ flags) e =
      rw (e, next_back)
        (Returns-bind (take_done m it flags e) (λ rest same. returns (ap (λ r. none ∷ r) same)))

  guard_prev :
      (m : LinkedVecMap V) (xs : List (Item V)) (fs : List ℕ)
      → LayoutOf m xs fs
      → prev_of (m.cells m.head) ≡ some (first_or m.head xs)
  guard_prev m [] fs l = l.ring.close_prev
  guard_prev m (x ∷ xs) fs l = l.ring.path.0

  -- The iterator gives what is left of the entries at either end.
  pub iter_ends-Represents :
      (m : LinkedVecMap V) (es : List (ℕ × V)) (flags : List Bool)
      → Represents m es
      → Returns (λ r. r ≡ ends_of es flags) (iter_ends m >>= λ it. take_ends m it flags)
  unfolding iter_ends load
  iter_ends-Represents m es flags (unguarded no_head no_free room index no_entries) =
      rw ((==_iff m.head 0).1 no_head, iter_ends)
        (subst
          (λ es. Returns (λ r. r ≡ ends_of es flags) (take_ends m (iter_of 0 m.head (len m)) flags))
          (sym no_entries)
          (take_done m (iter_of 0 m.head (len m)) flags ((==_iff 0 m.head).1 (sym no_head))))
  iter_ends-Represents m es flags (linked h) =
      let l = h.layout in
      let first = guard_prev m h.items h.frees l in
      let (n, at_head, is_first) = cell_of_prev (m.cells m.head) (first_or m.head h.items) first in
      let count : len m ≡ length h.items =
        len_lem m es (linked h) ∙ ap length h.holds ∙ length-entries h.items in
      let begins : iter_of n.prev m.head (len m) ≡ iter_at m h.items [] =
        iter_eq is_first refl count in
      rw (head-guarded m h.items h.frees l, iter_ends)
        (rw at_head (
          subst (λ it. Returns (λ r. r ≡ ends_of es flags) (take_ends m it flags)) (sym begins)
            (subst
              (λ es. Returns (λ r. r ≡ ends_of es flags) (take_ends m (iter_at m h.items []) flags))
              (sym h.holds)
              (take_ends_lem m [] h.items [] h.frees flags
                (subst (λ xs. LayoutOf m xs h.frees) (append_nil h.items) l)))))
