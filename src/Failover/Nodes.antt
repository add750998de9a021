-- ===== src/Failover/Nodes.antt =====
-- The map of nodes: which nodes are active, and what a change of state or of hands does to it.
use net_llm.Prelude.{
  String, Bool, true, false, Option, none, some, [], ◌∷◌, ◌≡◌, refl, sym, ◌∙◌, inl, inr, arith,
  subst, if◌then◌else◌, Bool-cases, Option-cases, str_eq, eq_iff,
}
use text.Mathlib.TextPositions.{eq_refl}
use net_llm.Prelude.Dict.{
  Dict, lookup, insert, delete, adjust, IsMap, insert-IsMap, delete-IsMap, adjust-IsMap,
  lookup-insert, lookup-delete, lookup-adjust, values,
}
use net_llm.Failover.Selection.{Among}
use net_llm.Failover.State.{FailoverState, Node, active, standby, is_active, with_state}

-- The state that a node has in the map.
abbrev pub state_at : Dict Node → String → Option FailoverState
state_at m k = elim (lookup k m) [ none ↦ none | some n ↦ some n.state ]

abbrev pub is_active_at : Dict Node → String → Bool
is_active_at m k = elim (lookup k m) [ none ↦ false | some n ↦ is_active n.state ]

-- No node is active where none is held to be; otherwise that one is active, and no other.
abbrev pub OneActive : Dict Node → Option String → Type 0
OneActive m none = (k : String) → is_active_at m k ≡ false
OneActive m (some a) = (is_active_at m a ≡ true) × ((k : String) → is_active_at m k ≡ true → k ≡ a)

-- Every node stands under its own ID, no ID stands twice, and one node at most is active.
pub record Good (m : Dict Node) (act : Option String) : Type 0 where
  pub unique : IsMap m
  pub ids : (k : String) (n : Node) → lookup k m ≡ some n → n.id ≡ k
  pub one : OneActive m act

-- A node on the list is in the map.
pub lookup_of_Among :
    (c : Node) (m : Dict Node) → IsMap m → Among c (values m) → (k : String) × (lookup k m ≡ some c)
lookup_of_Among c [] u at = absurd at
lookup_of_Among c ((i, w) ∷ m) u (inl same) = (i, rw (eq_refl i, same) refl)
lookup_of_Among c ((i, w) ∷ m) u (inr later) =
    let (k, e) = lookup_of_Among c m u.1 later in (k, ground (arith, eq_iff i k))

-- A write that leaves the ID alone.
abbrev KeepsId : (Node → Node) → Type 0
KeepsId f = (n : Node) → (f n).id ≡ n.id

adjust-ids :
    (m : Dict Node) (id : String) (f : Node → Node)
    → KeepsId f
    → ((k : String) (n : Node) → lookup k m ≡ some n → n.id ≡ k)
    → (k : String) (n : Node) → lookup k (adjust id f m) ≡ some n
    → n.id ≡ k
adjust-ids m id f keeps h k n e = elim (Option-cases (lookup k m)) [
  | inl absent ↦ ground (arith, lookup-adjust id k f m)
  | inr (w, found) ↦ ground (arith, lookup-adjust id k f m, keeps w, h k w found)
]

insert-ids :
    (m : Dict Node) (node : Node)
    → ((k : String) (n : Node) → lookup k m ≡ some n → n.id ≡ k)
    → (k : String) (n : Node) → lookup k (insert node.id node m) ≡ some n
    → n.id ≡ k
insert-ids m node h k n e = elim (Bool-cases (str_eq node.id k)) [
  | inl same ↦ ground (arith, lookup-insert node.id k node m, eq_iff node.id k)
  | inr ne ↦ h k n (ground (arith, lookup-insert node.id k node m))
]

delete-ids :
    (m : Dict Node) (id : String)
    → ((k : String) (n : Node) → lookup k m ≡ some n → n.id ≡ k)
    → (k : String) (n : Node) → lookup k (delete id m) ≡ some n
    → n.id ≡ k
delete-ids m id h k n e = h k n (ground (arith, lookup-delete id k m))

-- After the active node has stepped back, none is active.
abbrev pub retired : Dict Node → Option String → Dict Node
retired m none = m
retired m (some a) = adjust a (with_state standby) m

retired_inactive :
    (m : Dict Node) (act : Option String)
    → OneActive m act
    → (k : String) → is_active_at (retired m act) k ≡ false
retired_inactive m none h k = h k
retired_inactive m (some a) h k = elim (Bool-cases (is_active_at m k)) [
  | inl on ↦ ground (arith, lookup-adjust a k (with_state standby) m, h.1 k on, eq_refl a)
  | inr off ↦ ground (arith, lookup-adjust a k (with_state standby) m)
]

retired_present :
    (m : Dict Node) (act : Option String) (k : String) (n : Node)
    → lookup k m ≡ some n
    → (n' : Node) × (lookup k (retired m act) ≡ some n')
retired_present m none k n e = (n, e)
retired_present m (some a) k n e = (
  if str_eq a k then with_state standby n else n,
  ground (arith, lookup-adjust a k (with_state standby) m),
)

retired-Good_parts :
    (m : Dict Node) (act : Option String)
    → Good m act
    → IsMap (retired m act)
      × ((k : String) (n : Node) → lookup k (retired m act) ≡ some n → n.id ≡ k)
retired-Good_parts m none g = (g.unique, g.ids)
retired-Good_parts m (some a) g = (
  adjust-IsMap a (with_state standby) m g.unique,
  adjust-ids m a (with_state standby) (λ n. refl) g.ids,
)

-- A node of the map becomes the active one.
pub hand_over-Good :
    (m : Dict Node) (act : Option String) (to : String) (n : Node)
    → Good m act
    → lookup to m ≡ some n
    → Good (adjust to (with_state active) (retired m act)) (some to)
hand_over-Good m act to n g e =
    let r = retired m act in
    let (n', e') = retired_present m act to n e in
    let parts = retired-Good_parts m act g in
    record {
      unique = adjust-IsMap to (with_state active) r parts.0;
      ids = adjust-ids r to (with_state active) (λ n. refl) parts.1;
      one = (
        ground (arith, lookup-adjust to to (with_state active) r, eq_refl to),
        λ k on. ground (
          arith,
          lookup-adjust to k (with_state active) r,
          eq_iff to k,
          retired_inactive m act g.one k,
        ),
      );
    }

-- Two maps with the same nodes active.
OneActive-same :
    (m m' : Dict Node) (act : Option String)
    → ((k : String) → is_active_at m' k ≡ is_active_at m k)
    → OneActive m act
    → OneActive m' act
OneActive-same m m' none same h = λ k. same k ∙ h k
OneActive-same m m' (some a) same h = (same a ∙ h.0, λ k on. h.1 k (sym (same k) ∙ on))

-- A write that leaves it open neither the ID nor whether the node is active.
pub adjust-Good :
    (m : Dict Node) (act : Option String) (id : String) (f : Node → Node)
    → KeepsId f
    → ((n : Node) → lookup id m ≡ some n → is_active (f n).state ≡ is_active n.state)
    → Good m act
    → Good (adjust id f m) act
adjust-Good m act id f keeps same g = record {
  unique = adjust-IsMap id f m g.unique;
  ids = adjust-ids m id f keeps g.ids;
  one = OneActive-same m (adjust id f m) act unchanged g.one;
}
  where
    unchanged : (k : String) → is_active_at (adjust id f m) k ≡ is_active_at m k
    unchanged k = elim (Bool-cases (str_eq id k)) [
      | inl here ↦
          let e = (eq_iff id k).0 here in
          (elim (Option-cases (lookup k m)) [
            | inl absent ↦ ground (arith, lookup-adjust id k f m)
            | inr (n, found) ↦ ground (
              arith,
              lookup-adjust id k f m,
              same n (subst (λ j. lookup j m ≡ some n) (sym e) found),
            )
          ])
      | inr away ↦ ground (arith, lookup-adjust id k f m)
    ]

-- A new node on standby.
pub insert_standby-Good :
    (m : Dict Node) (act : Option String) (node : Node)
    → lookup node.id m ≡ none
    → Good m act
    → Good (insert node.id (with_state standby node) m) act
insert_standby-Good m act node absent g = record {
  unique = insert-IsMap node.id (with_state standby node) m g.unique;
  ids = insert-ids m (with_state standby node) g.ids;
  one = OneActive-same m _ act unchanged g.one;
}
  where
    unchanged :
        (k : String)
        → is_active_at (insert node.id (with_state standby node) m) k ≡ is_active_at m k
    unchanged k = elim (Bool-cases (str_eq node.id k)) [
      | inl here ↦ ground (
        arith,
        lookup-insert node.id k (with_state standby node) m,
        subst (λ j. lookup j m ≡ none) ((eq_iff node.id k).0 here) absent,
      )
      | inr away ↦ ground (arith, lookup-insert node.id k (with_state standby node) m)
    ]

-- A new node that takes over.
pub insert_active-Good :
    (m : Dict Node) (act : Option String) (node : Node)
    → Good m act
    → Good (insert node.id (with_state active node) (retired m act)) (some node.id)
insert_active-Good m act node g =
    let r = retired m act in
    let parts = retired-Good_parts m act g in
    record {
      unique = insert-IsMap node.id (with_state active node) r parts.0;
      ids = insert-ids r (with_state active node) parts.1;
      one = (
        ground (arith, lookup-insert node.id node.id (with_state active node) r, eq_refl node.id),
        λ k on. ground (
          arith,
          lookup-insert node.id k (with_state active node) r,
          eq_iff node.id k,
          retired_inactive m act g.one k,
        ),
      );
    }

-- A node that is not the active one is dropped.
pub delete-Good :
    (m : Dict Node) (act : Option String) (id : String)
    → ((a : String) → act ≡ some a → str_eq a id ≡ false)
    → Good m act
    → Good (delete id m) act
delete-Good m act id other g = record {
  unique = delete-IsMap id m g.unique;
  ids = delete-ids m id g.ids;
  one = go act other g.one;
}
  where
    fewer : (k : String) → is_active_at (delete id m) k ≡ true → is_active_at m k ≡ true
    fewer k on = ground (arith, lookup-delete id k m)

    go :
        (o : Option String)
        → ((a : String) → o ≡ some a → str_eq a id ≡ false)
        → OneActive m o
        → OneActive (delete id m) o
    go none other h = λ k. ground (arith, lookup-delete id k m, h k)
    go (some a) other h = (
      ground (arith, lookup-delete id a m, eq_iff id a, eq_iff a id, other a refl),
      λ k on. h.1 k (fewer k on),
    )
