-- ===== src/Api/Stream/Fresh.antt =====
-- The event stream of app/api.py after a message that tells of a change.
use all_debrid_proxy.Base.{
  ℕ, ◌≡◌, refl, sym, ◌∙◌, true, none, some, List, [], ◌∷◌, ◌++◌, Bool-cases, inl, inr, Text, codes,
  text_eq, text_eq→eq,
}
use all_debrid_proxy.Provider.Values.{Json, Fields, get}
use all_debrid_proxy.Api.Stream.{
  Jsons, Stream, Round, start, send_listing, on_message, on_object, fresh_or_delta, is_delta, step,
  run, sse_gen,
}
use all_debrid_proxy.Api.Stream.Laws.{view, run-IsTracked}

module _ (J : Jsons) where
  send_listing-last_sent :
      (snap : Fields) (s : Stream) → (send_listing J snap s).1.last_sent ≡ J.dumps snap
  unfolding send_listing
  send_listing-last_sent snap s = elim (Bool-cases (text_eq (J.dumps snap) s.last_sent)) [
    | inl e ↦ rw e (sym (text_eq→eq (J.dumps snap) s.last_sent e))
    | inr e ↦ rw e refl
  ]

  -- The message of the round tells of a change, and the database then holds the snapshot.
  abbrev pub IsDelta : Fields → Round → Type 0
  IsDelta snap r =
      (raw : Text) × (fs : Fields) × (r.message ≡ some raw)
      × (J.loads raw ≡ some (Json.object fs))
      × (get (codes "files") fs ≡ none)
      × (is_delta fs ≡ true)
      × (r.fresh ≡ some snap)

  step-last_sent :
      (snap : Fields) (r : Round) (s : Stream)
      → IsDelta snap r
      → (step J r s).1.last_sent ≡ J.dumps snap
  unfolding step on_message on_object fresh_or_delta
  step-last_sent snap r s (raw, fs, m, l, files, delta, fresh) =
      rw (step, m, l, on_message, files, on_object, delta, fresh, fresh_or_delta)
        (send_listing-last_sent snap s)

  run-last_sent :
      (snap : Fields) (rs : List Round) (r : Round) (s : Stream)
      → IsDelta snap r
      → (run J (rs ++ (r ∷ [])) s).1.last_sent ≡ J.dumps snap
  unfolding run
  run-last_sent snap [] r s h = step-last_sent snap r s h
  run-last_sent snap (q ∷ rs) r s h = run-last_sent snap rs r (step J q s).1 h

  -- Whatever happened before, once a message that tells of a change of the task's state or of a file, and that is no
  -- full list of files, has been handled while the task exists, the client has seen what the database holds.
  pub sse_gen-view :
      (snap0 snap : Fields) (now : ℕ) (rs : List Round) (r : Round)
      → IsDelta snap r
      → view J [] (sse_gen J snap0 now (rs ++ (r ∷ []))) ≡ J.dumps snap
  unfolding sse_gen
  sse_gen-view snap0 snap now rs r h =
      sym (run-IsTracked J (rs ++ (r ∷ [])) (start J snap0 now)).1
      ∙ run-last_sent snap rs r (start J snap0 now) h
