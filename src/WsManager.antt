-- ===== src/WsManager.antt =====
-- `WSManager` of app/ws_manager.py: the websockets that follow a task. A dictionary is its list of
-- entries, a set the list of its members, and a websocket a number. Which websockets take a message is
-- an argument of `broadcast`. The subscription to Redis is left out.
pub mod Laws
use all_debrid_proxy.Base.{
  ℕ, Bool, true, false, not, Option, none, some, List, [], ◌∷◌, ◌++◌, ◌==◌, if◌then◌else◌, Text,
  text_eq, any, filter,
}

abbrev pub Connections : Type 0
Connections = List (Text × List ℕ)

abbrev pub mem : ℕ → List ℕ → Bool
mem ws s = any (λ v. v == ws) s

-- `self.connections[task_id]`, or `none` where the key is missing
unfoldable pub lookup : Text → Connections → Option (List ℕ)
lookup id [] = none
lookup id ((k, s) ∷ c) = if text_eq id k then some s else lookup id c

-- `self.connections[task_id] = s`
unfoldable pub store : Text → List ℕ → Connections → Connections
store id s [] = (id, s) ∷ []
store id s ((k, t) ∷ c) =
    let rest = store id s c in if text_eq id k then (k, s) ∷ c else (k, t) ∷ rest

-- `del self.connections[task_id]`
unfoldable pub delete : Text → Connections → Connections
delete id c = filter (λ (e : Text × List ℕ). not (text_eq id e.0)) c

abbrev pub or_empty : Option (List ℕ) → List ℕ
or_empty none = []
or_empty (some s) = s

abbrev pub insert : ℕ → List ℕ → List ℕ
insert ws s = if mem ws s then s else s ++ (ws ∷ [])

abbrev pub discard : ℕ → List ℕ → List ℕ
discard ws s = filter (λ v. not (v == ws)) s

unfoldable pub add : Text → ℕ → Connections → Connections
unfolding lookup store
add id ws c = store id (insert ws (or_empty (lookup id c))) c

-- The entry after `discard`: an empty set is deleted.
abbrev pub keep_if_any : Text → List ℕ → Connections → Connections
unfolding store delete
keep_if_any id [] c = delete id c
keep_if_any id (v ∷ s) c = store id (v ∷ s) c

unfoldable pub remove : Text → ℕ → Connections → Connections
unfolding lookup
remove id ws c = elim (lookup id c) [ none ↦ c | some s ↦ keep_if_any id (discard ws s) c ]

-- `for ws in dead: self.remove(task_id, ws)`
unfoldable pub remove_all : Text → List ℕ → Connections → Connections
unfolding remove
remove_all id [] c = c
remove_all id (ws ∷ dead) c = remove_all id dead (remove id ws c)

-- `takes` says which websockets take the message; the others are dead.
unfoldable pub broadcast : (ℕ → Bool) → Text → Connections → Connections
unfolding lookup remove_all
broadcast takes id c = elim (lookup id c) [
  | none ↦ c
  | some s ↦ remove_all id (filter (λ ws. not (takes ws)) s) c
]
