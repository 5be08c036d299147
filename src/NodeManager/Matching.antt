-- ===== src/NodeManager/Matching.antt =====
-- The queue on lists: what `process_queue` gives to whom.
use grid_server.Base.{
  ℕ, ◌≡◌, refl, sym, ap, ◌∙◌, subst, Bool, true, false, Option, none, some, List, [], ◌∷◌, ◌++◌,
  arith, if◌then◌else◌, ==_refl, some_inj, length, append_assoc, append_nil, undefined, or_else,
  Returns, returns, Returns-if, Returns-map, Returns-bind,
}
use grid_server.Platform.{Platform}
use grid_server.LinkedVecMap.{Node, LinkedVecMap, load}
use grid_server.LinkedVecMap.Members.{mem-left, mem-right, mem_ne, last, mem, last-append}
use grid_server.LinkedVecMap.Ring.{Item, addrs, addrs-append, prev_of, Chain-split}
use grid_server.LinkedVecMap.Index.{entries, entries-append, Index}
use grid_server.LinkedVecMap.Nodes.{cell_of_entry}
use grid_server.LinkedVecMap.Written.{set_value-Layout}
use grid_server.LinkedVecMap.Writing.{Index-write}
use grid_server.LinkedVecMap.Refinement.{LayoutOf, Linked, Layout-same}
use grid_server.NodeManager.{WorkersDemand, accepts, provide, provide_from}

-- The first demand that accepts a platform gets one more worker.
abbrev pub provide_first : Platform → List (ℕ × WorkersDemand) → Option ℕ × List (ℕ × WorkersDemand)
provide_first platform [] = (none, [])
provide_first platform ((k, d) ∷ ds) =
    let (found, later) = provide_first platform ds in
    if accepts d platform then (some k, (k, provide d) ∷ ds) else (found, (k, d) ∷ later)

abbrev pub WithFirst :
    Platform
    → (before after : List (ℕ × WorkersDemand)) → Option ℕ × LinkedVecMap WorkersDemand
    → Type 0
WithFirst platform before after r =
    (r.0 ≡ (provide_first platform after).0)
    × Linked r.1 (before ++ (provide_first platform after).1)

if_true {ℓ} : {A : Type ℓ} (b : Bool) (x y : A) → b ≡ true → (if b then x else y) ≡ x
if_true b x y e = rw e refl

if_false {ℓ} : {A : Type ℓ} (b : Bool) (x y : A) → b ≡ false → (if b then x else y) ≡ y
if_false b x y e = rw e refl

pub provide_first-accepted :
    (platform : Platform) (k : ℕ) (d : WorkersDemand) (ds : List (ℕ × WorkersDemand))
    → accepts d platform ≡ true
    → provide_first platform ((k, d) ∷ ds) ≡ (some k, (k, provide d) ∷ ds)
provide_first-accepted platform k d ds e = if_true (accepts d platform) _ _ e

pub provide_first-passed :
    (platform : Platform) (k : ℕ) (d : WorkersDemand) (ds : List (ℕ × WorkersDemand))
    → accepts d platform ≡ false
    → provide_first platform ((k, d) ∷ ds)
      ≡ ((provide_first platform ds).0, (k, d) ∷ (provide_first platform ds).1)
provide_first-passed platform k d ds e = if_false (accepts d platform) _ _ e

load-found :
    (m : LinkedVecMap WorkersDemand) (p : ℕ) (n : Node WorkersDemand)
    → m.cells p ≡ some n
    → Returns (λ found. found ≡ n) (load m p)
unfolding load
load-found m p n e = rw e (returns refl)

or_else-found {ℓ} :
    {A : Type ℓ} (o : Option A) (a : A) → o ≡ some a → Returns (λ b. b ≡ a) (or_else o undefined)
or_else-found o a e = rw e (returns refl)

pub provide_from_lem :
    (m : LinkedVecMap WorkersDemand) (platform : Platform) (ys xs : List (Item WorkersDemand))
    (fs : List ℕ) (n : Node WorkersDemand)
    → LayoutOf m (ys ++ xs) fs
    → Index m.map (ys ++ xs)
    → m.cells (last m.head (addrs ys)) ≡ some n
    → Returns
        (WithFirst platform (entries ys) (entries xs))
        (provide_from m platform (length xs) n.prev)
unfolding provide_from
provide_from_lem m platform ys [] fs n l i at_a =
    let same : ys ≡ ys ++ [] = append_nil ys in
    let end : n.prev ≡ m.head = some_inj (
      sym (ap prev_of at_a)
      ∙ ap (λ xs. prev_of (m.cells (last m.head (addrs xs)))) same
      ∙ l.ring.close_prev) in
    rw (end, provide_from)
      (rw (==_refl m.head) (
        returns (
          refl,
          record {
            items = ys ++ [];
            frees = fs;
            layout = l;
            index = i;
            holds = sym (entries-append ys []);
          },
        )))
provide_from_lem m platform ys (x ∷ xs) fs n l i at_a =
    let (before, (q, nx, en, later)) = Chain-split m.cells m.head ys (x ∷ xs) l.ring.path in
    let (node, at_x, is_entry) = cell_of_entry (m.cells x.addr) (x.key, x.val) en in
    let here : n.prev ≡ x.addr = some_inj (sym (ap prev_of at_a) ∙ q) in
    let member : mem x.addr (addrs (ys ++ x ∷ xs) ++ fs) ≡ true =
      mem-left x.addr (addrs (ys ++ x ∷ xs)) fs (
        ap (mem x.addr) (addrs-append ys (x ∷ xs))
        ∙ mem-right x.addr (addrs ys) (x.addr ∷ addrs xs) (ground arith)) in
    let not_head = mem_ne x.addr m.head (addrs (ys ++ x ∷ xs) ++ fs) member l.distinct.0 in
    rw (here, provide_from)
      (rw not_head (
        Returns-bind (load-found m x.addr node at_x) (λ n' is_node.
          Returns-bind
            (or_else-found n'.entry (x.key, x.val) (ap (λ n. n.entry) is_node ∙ is_entry))
            (λ e is_e.
              rw (is_e, is_node)
                (Returns-if (accepts x.val platform)
                  (λ accepted.
                    Returns-bind (set_value-Layout m ys x xs fs (provide x.val) l) (λ m' (l', same).
                      let is_first =
                        provide_first-accepted platform x.key x.val (entries xs) accepted in
                      returns (
                        sym (ap (λ r. r.0) is_first),
                        record {
                          items = ys ++ record x { val = provide x.val } ∷ xs;
                          frees = fs;
                          layout = Layout-same same l';
                          index = rw same.map (Index-write m.map ys x xs (provide x.val) i);
                          holds =
                              ap (λ r. entries ys ++ r.1) is_first
                              ∙ sym (entries-append ys (record x { val = provide x.val } ∷ xs));
                        },
                      )))
                  (λ passed.
                    let is_first = provide_first-passed platform x.key x.val (entries xs) passed in
                    let shift : ys ++ x ∷ xs ≡ (ys ++ x ∷ []) ++ xs =
                      sym (append_assoc ys (x ∷ []) xs) in
                    let end : last m.head (addrs (ys ++ x ∷ [])) ≡ x.addr =
                      ap (last m.head) (addrs-append ys (x ∷ []))
                      ∙ last-append m.head (addrs ys) (x.addr ∷ []) in
                    Returns-map
                      (provide_from_lem m platform (ys ++ x ∷ []) xs fs node
                        (subst (λ l. LayoutOf m l fs) shift l) (subst (Index m.map) shift i)
                        (ap m.cells end ∙ at_x))
                      (λ r (found, h). (
                        found ∙ sym (ap (λ r. r.0) is_first),
                        subst (Linked r.1)
                            (ap (λ es. es ++ (provide_first platform (entries xs)).1)
                                (entries-append ys (x ∷ []))
                              ∙ append_assoc (entries ys) ((x.key, x.val) ∷ [])
                                  ((provide_first platform (entries xs)).1)
                              ∙ ap (λ r. entries ys ++ r.1) (sym is_first))
                            h,
                      ))))))))
