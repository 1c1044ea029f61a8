-- ===== src/Tests/Sockets.antt =====
-- The websocket registry at concrete inputs.
use all_debrid_proxy.Base.{ℕ, ◌≡◌, Bool, not, ◌&&◌, [], ◌∷◌, ◌==◌, codes, text_eq}
use all_debrid_proxy.WsManager.{Connections, broadcast}
use all_debrid_proxy.WsManager.Laws.{follows, follows-broadcast}

abbrev two_sockets : Connections
two_sockets = (codes "t1", 1 ∷ 2 ∷ []) ∷ []

-- Socket 1 takes the message, socket 2 does not.
abbrev takes : ℕ → Bool
takes ws = ws == 1

follows-broadcast_example : follows (codes "t1") 2 (broadcast takes (codes "t1") two_sockets) ≡ (
    follows (codes "t1") 2 two_sockets && not (text_eq (codes "t1") (codes "t1") && not (takes 2)))
follows-broadcast_example = follows-broadcast takes (codes "t1") (codes "t1") 2 two_sockets
