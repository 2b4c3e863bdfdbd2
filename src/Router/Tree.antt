-- ===== src/Router/Tree.antt =====
-- tree.go, the radix tree of one HTTP method. Paths are byte strings. A handler chain is a value of
-- any type, and nil is `none`. url.PathUnescape is a parameter. The loops walk down the tree: they
-- are recursions on it, and an insertion returns the tree that the code makes in place.
pub mod Prefix
pub mod Place
pub mod Lookup
pub mod Index
pub mod Descend
pub mod Refine
pub mod Shape
pub mod Static
pub mod Wild
pub mod Capture
mod Tests
use goplusplus.Prelude.{
  ℕ, zero, suc, ◌+◌, Bool, true, false, not, ◌||◌, ◌&&◌, List, [], ◌∷◌, ◌++◌, Option, none, some,
  if◌then◌else◌, ltb, ◌==◌, length, get_or,
}
use goplusplus.Prelude.Bytes.{Bytes, take, drop, bytes_eq, index_byte}

pub data NodeType : Type 0 where
  node_static node_param node_catch_all : NodeType

abbrev pub is_static : NodeType → Bool
is_static node_static = true
is_static node_param = false
is_static node_catch_all = false

mutual
  pub data Node {ℓ} (H : Type ℓ) : Type ℓ where
    node :
        (path indices : Bytes) (wild_child : Bool) (n_type : NodeType) (param_name : Bytes)
        → Nodes H
        → (handlers : Option H) → Node H

  pub data Nodes {ℓ} (H : Type ℓ) : Type ℓ where
    nil : Nodes H
    cons : Node H → Nodes H → Nodes H

abbrev pub Params : Type 0
Params = List (Bytes × Bytes)

-- Params.Get
unfoldable pub get_param : Params → Bytes → Bytes
get_param [] key = []
get_param ((k, value) ∷ ps) key = if bytes_eq k key then value else get_param ps key

unfoldable pub longest_common_prefix : Bytes → Bytes → ℕ
longest_common_prefix [] ys = 0
longest_common_prefix (x ∷ xs) [] = 0
longest_common_prefix (x ∷ xs) (y ∷ ys) = if x == y then suc (longest_common_prefix xs ys) else 0

abbrev pub is_wild : ℕ → Bool
is_wild c = c == b':' || c == b'*'

-- strings.IndexAny(path, ":*")
unfoldable pub index_wild : Bytes → Option ℕ
index_wild [] = none
index_wild (x ∷ xs) =
    if is_wild x then some 0 else elim (index_wild xs) [ none ↦ none | some i ↦ some (suc i) ]

abbrev pub wild_type : Bytes → NodeType
wild_type path = if get_or path 0 0 == b'*' then node_catch_all else node_param

-- The child in which the insertion goes on, if there is one.
unfoldable pub next_child : Bytes → Bool → NodeType → ℕ → ℕ → Option ℕ
next_child indices w n_type c children =
    if w
    then some 0
    else if not (is_static n_type) && c == b'/' && children == 1
    then some 0
    else index_byte indices c

module _ {ℓ} {H : Type ℓ} where
  abbrev pub empty_node : Node H
  empty_node = node [] [] false node_static [] nil none

  abbrev pub count_nodes : Nodes H → ℕ
  count_nodes nil = 0
  count_nodes (cons n ns) = suc (count_nodes ns)

  -- append(n.children, child)
  abbrev pub snoc : Nodes H → Node H → Nodes H
  snoc nil child = cons child nil
  snoc (cons n ns) child = cons n (snoc ns child)

  -- A new static child for a path: up to its first parameter, and the rest below it. `wild` makes
  -- the node of a parameter.
  unfoldable pub static_node : (Bytes → H → Node H) → Bytes → H → Node H
  static_node wild path handlers = elim (index_wild path) [
    | none ↦ node path [] false node_static [] nil (some handlers)
    | some i ↦
        node (take i path) [] true node_static [] (cons (wild (drop i path) handlers) nil) none
  ]

  -- "Add child": a path with no child of its own at this node.
  unfoldable pub add_child : (Bytes → H → Node H) → Node H → Bytes → H → Node H
  add_child wild (node p indices w n_type name children h) path handlers =
      if is_wild (get_or path 0 0)
      then node p indices true n_type name (snoc children (wild path handlers)) h
      else node p (indices ++ get_or path 0 0 ∷ []) w n_type name
          (snoc children (static_node wild path handlers)) h

  -- The node of a parameter or a wildcard, which ends at the next '/'; what follows is inserted into
  -- an empty child of it. Each level takes a byte at least, so the length of the path is enough fuel.
  unfoldable pub wild_node : ℕ → Bytes → H → Node H
  wild_node zero path handlers = empty_node
  wild_node (suc fuel) path handlers = elim (index_byte path b'/') [
    | none ↦ node path [] false (wild_type path) (drop 1 path) nil (some handlers)
    | some end ↦
        node (take end path) [] false (wild_type path) (drop 1 (take end path))
          (cons (add_child (wild_node fuel) empty_node (drop end path) handlers) nil) none
  ]

  abbrev pub set_handlers : Node H → H → Node H
  set_handlers (node p indices w n_type name children h) handlers =
      node p indices w n_type name children (some handlers)

  -- The split of a node after the first i bytes of its path, which are those of the new path.
  unfoldable pub split_node : ℕ → Bytes → Node H → Node H
  split_node i path (node p indices w n_type name children h) =
      node (take i path) (get_or p i 0 ∷ []) false node_static []
        (cons (node (drop i p) indices w n_type name children h) nil) none

-- After a split the byte that follows in the path is not that of the one child, so no child is found
-- and the path gets a child of its own.
unfoldable mutual
  pub insert_child {ℓ} : {H : Type ℓ} → Node H → Bytes → H → Node H
  insert_child (node p indices w n_type name children h) path handlers =
      let i = longest_common_prefix path p in
      let rest = drop i path in
      let parent = split_node i path (node p indices w n_type name children h) in
      let wild = wild_node (length path) in
      if ltb i (length p)
      then (if ltb i (length path)
          then add_child wild parent rest handlers
          else set_handlers parent handlers)
      else if ltb i (length path)
      then elim (next_child indices w n_type (get_or rest 0 0) (count_nodes children)) [
        | some k ↦ node p indices w n_type name (insert_nth children k rest handlers) h
        | none ↦ add_child wild (node p indices w n_type name children h) rest handlers
      ]
      else node p indices w n_type name children (some handlers)

  pub insert_nth {ℓ} : {H : Type ℓ} → Nodes H → ℕ → Bytes → H → Nodes H
  insert_nth nil k path handlers = nil
  insert_nth (cons n ns) zero path handlers = cons (insert_child n path handlers) ns
  insert_nth (cons n ns) (suc k) path handlers = cons n (insert_nth ns k path handlers)

abbrev pub add_route {ℓ} : {H : Type ℓ} → Node H → Bytes → H → Node H
add_route n path handlers = insert_child n path handlers

-- The value of a parameter: unescaped where it holds a '%' and can be.
unfoldable pub unescaped : (Bytes → Option Bytes) → Bytes → Bytes
unescaped path_unescape value = elim (index_byte value b'%') [
  | none ↦ value
  | some i ↦ elim (path_unescape value) [ none ↦ value | some v ↦ v ]
]

abbrev pub push_param : Bytes → Bytes → Params → Params
push_param [] value ps = ps
push_param (c ∷ name) value ps = ps ++ (c ∷ name, value) ∷ []

-- path[:end] with the end at the next '/' or at the end of the path
abbrev pub segment : Bytes → Bytes
segment path = elim (index_byte path b'/') [ none ↦ path | some end ↦ take end path ]

unfoldable mutual
  -- The path that is left below a node, and the parameters so far.
  pub get_value {ℓ} :
      {H : Type ℓ} → (Bytes → Option Bytes) → Node H → Bytes → Params → Option H × Params
  get_value u (node p indices w n_type name children h) path ps =
      let rest = drop (length p) path in
      if ltb (length p) (length path)
      then elim (bytes_eq (take (length p) path) p) [
        | false ↦ (none, ps)
        | true ↦ elim w [
          | true ↦ get_wild u children rest ps
          | false ↦ elim (index_byte indices (get_or rest 0 0)) [
            | none ↦ (none, ps)
            | some k ↦ get_nth u children k rest ps
          ]
        ]
      ]
      else if bytes_eq path p
      then (h, ps)
      else (none, ps)

  pub get_nth {ℓ} :
      {H : Type ℓ} → (Bytes → Option Bytes) → Nodes H → ℕ → Bytes → Params → Option H × Params
  get_nth u nil k path ps = (none, ps)
  get_nth u (cons n ns) zero path ps = get_value u n path ps
  get_nth u (cons n ns) (suc k) path ps = get_nth u ns k path ps

  -- The first child of a node with a wild child.
  pub get_wild {ℓ} :
      {H : Type ℓ} → (Bytes → Option Bytes) → Nodes H → Bytes → Params → Option H × Params
  get_wild u nil path ps = (none, ps)
  get_wild u (cons (node p indices w node_static name children h) ns) path ps = (none, ps)
  get_wild u (cons (node p indices w node_param name children h) ns) path ps =
      let ps' = push_param name (unescaped u (segment path)) ps in
      elim (index_byte path b'/') [
        | none ↦ (h, ps')
        | some end ↦ get_nth u children 0 (drop end path) ps'
      ]
  get_wild u (cons (node p indices w node_catch_all name children h) ns) path ps =
      (h, push_param name (unescaped u path) ps)
