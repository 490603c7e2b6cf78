-- ===== src/Utils/Vlist.antt =====
-- utils.c and utils.h: vlist_simple, a list whose nodes carry the version in which they were added.
use netifd.Prelude.{◌+◌, ◌==◌, List, [], ◌∷◌, ◌++◌, Bool, not, ◌&&◌, ◌||◌, if◌then◌else◌}
use netifd.Prelude.Int.{ℤ, pos, negsuc, pos_part, neg_part, ◌+ℤ◌}

-- struct vlist_simple_node, with what it is embedded in. Versions do not wrap.
pub record Node (A : Type 0) : Type 0 where
  pub item : A
  pub version : ℤ

pub record Tree (A : Type 0) : Type 0 where
  pub list : List (Node A)
  pub version : ℤ

abbrev pub eqb_ℤ : ℤ → ℤ → Bool
eqb_ℤ a b = (pos_part a + neg_part b) == (pos_part b + neg_part a)

-- The version that a tree has while all of it is flushed.
abbrev pub flushed : ℤ
flushed = negsuc 0

module _ {A : Type 0} where
  abbrev pub vlist_simple_init : Tree A
  vlist_simple_init = record { list = []; version = pos 1 }

  unfoldable pub vlist_simple_update : Tree A → Tree A
  vlist_simple_update t = record t { version = t.version +ℤ pos 1 }

  unfoldable pub vlist_simple_add : A → Tree A → Tree A
  vlist_simple_add x t = record t { list = t.list ++ record { item = x; version = t.version } ∷ [] }

  abbrev pub stays : ℤ → Node A → Bool
  stays v n = (eqb_ℤ n.version v || eqb_ℤ n.version flushed) && not (eqb_ℤ v flushed)

  -- The nodes that vlist_simple_delete does not take out.
  abbrev pub flush_from : ℤ → List (Node A) → List (Node A)
  flush_from v [] = []
  flush_from v (n ∷ l) = let rest = flush_from v l in if stays v n then n ∷ rest else rest

  unfoldable pub vlist_simple_flush : Tree A → Tree A
  vlist_simple_flush t = record t { list = flush_from t.version t.list }

  abbrev pub add_nodes : List (Node A) → Tree A → Tree A
  add_nodes [] t = t
  add_nodes (n ∷ l) t = add_nodes l (vlist_simple_add n.item t)

  -- `dest` afterwards, and `old`, whose nodes have moved.
  unfoldable pub vlist_simple_replace : Tree A → Tree A → Tree A × Tree A
  unfolding vlist_simple_update vlist_simple_add vlist_simple_flush
  vlist_simple_replace dest old =
      (vlist_simple_flush (add_nodes old.list (vlist_simple_update dest)), record old { list = [] })

  unfoldable pub vlist_simple_flush_all : Tree A → Tree A
  unfolding vlist_simple_flush
  vlist_simple_flush_all t = vlist_simple_flush (record t { version = flushed })
