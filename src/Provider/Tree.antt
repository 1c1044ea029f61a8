-- ===== src/Provider/Tree.antt =====
-- The file trees that `_normalize_items` of app/providers/alldebrid.py flattens, in the format of v4.1 that
-- its comment describes: `{n, e}` for a directory and `{n, s, l}` for a file.
use Prim.Native.String.{String}
use all_debrid_proxy.Base.{
  ℕ, zero, suc, ◌≡◌, refl, ap, some, List, [], ◌∷◌, ◌++◌, pos, Text, codes, text_eq,
}
use all_debrid_proxy.Provider.Values.{Json, Items, Fields, get, truthy, or_json}
use all_debrid_proxy.Provider.{Entry, entry_of, normalize_items, normalize_item}

-- A file with the two parts of its name and of its locked link that no text may lack.
pub record Leaf : Type 0 where
  pub first : ℕ
  pub rest : Text
  pub size : ℕ
  pub link_first : ℕ
  pub link_rest : Text

mutual
  pub data Tree : Type 0 where
    file : Leaf → Tree
    directory : Text → Forest → Tree

  pub data Forest : Type 0 where
    empty : Forest
    tree : Tree → Forest → Forest

abbrev pub key : String → Json → Fields → Fields
key k v fs = Fields.field (codes k) v fs

-- What the provider sends for a tree.
unfoldable mutual
  pub sent : Tree → Json
  sent (Tree.file f) = Json.object (
      key "n" (Json.text (f.first ∷ f.rest)) (
        key "s" (Json.number (pos f.size))
          (key "l" (Json.text (f.link_first ∷ f.link_rest)) Fields.end)))
  sent (Tree.directory name ts) =
      Json.object (key "n" (Json.text name) (key "e" (Json.array (all_sent ts)) Fields.end))

  pub all_sent : Forest → Items
  all_sent Forest.empty = Items.nil
  all_sent (Forest.tree t ts) = Items.cons (sent t) (all_sent ts)

abbrev pub leaf_entry : Leaf → Entry
leaf_entry f = record {
  name = Json.text (f.first ∷ f.rest);
  size = pos f.size;
  link = some (Json.text (f.link_first ∷ f.link_rest));
}

-- The files of a tree from left to right.
unfoldable mutual
  pub leaves : Tree → List Entry
  leaves (Tree.file f) = leaf_entry f ∷ []
  leaves (Tree.directory name ts) = all_leaves ts

  pub all_leaves : Forest → List Entry
  all_leaves Forest.empty = []
  all_leaves (Forest.tree t ts) = leaves t ++ all_leaves ts

entry_of-file :
    (c d : ℕ) (s t : Text) (n : ℕ)
    → entry_of (
        key "n"
          (Json.text (c ∷ s))
          (key "s" (Json.number (pos n)) (key "l" (Json.text (d ∷ t)) Fields.end)))
      ≡ leaf_entry (record { first = c; rest = s; size = n; link_first = d; link_rest = t })
unfolding entry_of get or_json truthy text_eq
entry_of-file c d s t zero = refl
entry_of-file c d s t (suc n) = refl

mutual
  unfolding normalize_items sent leaves text_eq

  forest_step : (ts : Forest) → normalize_items (all_sent ts) ≡ some (all_leaves ts)
  forest_step Forest.empty = refl
  forest_step (Forest.tree t ts) = rw (tree_step t, forest_step ts) refl

  tree_step : (t : Tree) → normalize_item (sent t) ≡ some (leaves t)
  tree_step (Tree.file f) =
      ap (λ e. some (e ∷ [])) (entry_of-file f.first f.link_first f.rest f.link_rest f.size)
  tree_step (Tree.directory name ts) = forest_step ts

-- A tree of named files with locked links, sent in the format of v4.1 with whatever nesting of directories, comes
-- out as its files from left to right, each with its own name, size and link: nothing is lost, doubled or mixed up.
pub normalize_items-all_sent : (ts : Forest) → normalize_items (all_sent ts) ≡ some (all_leaves ts)
normalize_items-all_sent ts = forest_step ts
