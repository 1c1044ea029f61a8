-- ===== src/Api/Stream/Laws.antt =====
-- What a client of the event stream of app/api.py gets to see.
use mathlib.Core.Bool.{true≢false}
use all_debrid_proxy.Base.{
  ℕ, ◌-◌, ◌≡◌, ◌≢◌, refl, sym, ap, ◌∙◌, subst, Bool, true, false, not, ◌&&◌, Option, none, some,
  List, [], ◌∷◌, ◌++◌, leb, if◌then◌else◌, Bool-cases, inl, inr, Text, codes, text_eq, text_eq_refl,
}
use all_debrid_proxy.Constants.{sse_refresh_interval, sse_max_empty_wait}
use all_debrid_proxy.Provider.Values.{Json, Fields, get}
use all_debrid_proxy.Api.Stream.{
  Jsons, Sent, Stream, Round, send_changed, send_listing, poll_files, refresh, refreshed,
  then_keep_alive, on_silence, message_data, is_delta, with_files, fresh_or_delta, on_object,
  on_message, lists_files, step, followed_by, run,
}

module _ (J : Jsons) where
  -- The snapshot that the client saw last, given the one it saw before.
  abbrev pub view : Text → List Sent → Text
  view last [] = last
  view last (Sent.snapshot f ∷ out) = view (J.dumps f) out
  view last (Sent.forwarded v ∷ out) = view last out
  view last (Sent.keep_alive t ∷ out) = view last out

  -- No snapshot is that which the client saw last.
  abbrev pub IsFreshEach : Text → List Sent → Type 0
  IsFreshEach last [] = Unit
  IsFreshEach last (Sent.snapshot f ∷ out) = (J.dumps f ≢ last) × IsFreshEach (J.dumps f) out
  IsFreshEach last (Sent.forwarded v ∷ out) = IsFreshEach last out
  IsFreshEach last (Sent.keep_alive t ∷ out) = IsFreshEach last out

  view-append : (last : Text) (xs ys : List Sent) → view last (xs ++ ys) ≡ view (view last xs) ys
  view-append last [] ys = refl
  view-append last (Sent.snapshot f ∷ xs) ys = view-append (J.dumps f) xs ys
  view-append last (Sent.forwarded v ∷ xs) ys = view-append last xs ys
  view-append last (Sent.keep_alive t ∷ xs) ys = view-append last xs ys

  IsFreshEach-append :
      (last : Text) (xs ys : List Sent)
      → IsFreshEach last xs
      → IsFreshEach (view last xs) ys
      → IsFreshEach last (xs ++ ys)
  IsFreshEach-append last [] ys h g = g
  IsFreshEach-append last (Sent.snapshot f ∷ xs) ys (h1, h) g =
      (h1, IsFreshEach-append (J.dumps f) xs ys h g)
  IsFreshEach-append last (Sent.forwarded v ∷ xs) ys h g = IsFreshEach-append last xs ys h g
  IsFreshEach-append last (Sent.keep_alive t ∷ xs) ys h g = IsFreshEach-append last xs ys h g

  -- The state knows what the client saw last, and nothing was sent twice.
  abbrev pub IsTracked : Text → List Sent × Stream → Type 0
  IsTracked last p = IsFreshEach last p.0 × (p.1.last_sent ≡ view last p.0)

  text_eq-false : (s t : Text) → text_eq s t ≡ false → s ≢ t
  text_eq-false s t h e = true≢false (sym (text_eq_refl t) ∙ ap (λ x. text_eq x t) (sym e) ∙ h)

  send_changed-IsTracked :
      (snap : Fields) (s : Stream) → IsTracked s.last_sent (send_changed J snap s)
  unfolding send_changed
  send_changed-IsTracked snap s = elim (Bool-cases (text_eq (J.dumps snap) s.last_sent)) [
    | inl e ↦ rw e (tt, refl)
    | inr e ↦ rw e ((text_eq-false (J.dumps snap) s.last_sent e, tt), refl)
  ]

  send_listing-IsTracked :
      (snap : Fields) (s : Stream) → IsTracked s.last_sent (send_listing J snap s)
  unfolding send_listing
  send_listing-IsTracked snap s = elim (Bool-cases (text_eq (J.dumps snap) s.last_sent)) [
    | inl e ↦ rw e (tt, refl)
    | inr e ↦ rw e ((text_eq-false (J.dumps snap) s.last_sent e, tt), refl)
  ]

  poll_files-IsTracked :
      (fresh : Option Fields) (s : Stream) → IsTracked s.last_sent (poll_files J fresh s)
  unfolding poll_files
  poll_files-IsTracked none s = (tt, refl)
  poll_files-IsTracked (some snap) s = send_listing-IsTracked snap s

  refresh-IsTracked :
      (fresh : Option Fields) (s : Stream) → IsTracked s.last_sent (refresh J fresh s)
  unfolding refresh
  refresh-IsTracked none s = (tt, refl)
  refresh-IsTracked (some snap) s = send_changed-IsTracked snap s

  then_keep_alive-IsTracked :
      (last : Text) (now : ℕ) (p : List Sent × Stream)
      → IsTracked last p
      → IsTracked last (then_keep_alive now p)
  then_keep_alive-IsTracked last now (out, s) (h, e) = (
    IsFreshEach-append last out (Sent.keep_alive now ∷ []) h tt,
    e ∙ sym (view-append last out (Sent.keep_alive now ∷ [])),
  )

  on_silence-IsTracked :
      (now : ℕ) (fresh : Option Fields) (s : Stream)
      → IsTracked s.last_sent (on_silence J now fresh s)
  unfolding on_silence
  on_silence-IsTracked now fresh s =
      by_tests (not s.have_files && leb (now - s.first_connect_time) sse_max_empty_wait)
        (s.have_files && leb sse_refresh_interval (now - s.last_full_refresh))
    where
      by_tests :
          (a b : Bool)
          → IsTracked s.last_sent (
              if a
              then poll_files J fresh s
              else if b
              then then_keep_alive now (refreshed now (refresh J fresh s))
              else then_keep_alive now ([], s))
      by_tests true b = poll_files-IsTracked fresh s
      by_tests false true =
          then_keep_alive-IsTracked s.last_sent now (refreshed now (refresh J fresh s))
            (refresh-IsTracked fresh s)
      by_tests false false = (tt, refl)

  fresh_or_delta-IsTracked :
      (fs : Fields) (fresh : Option Fields) (s : Stream)
      → IsTracked s.last_sent (fresh_or_delta J fs fresh s)
  unfolding fresh_or_delta
  fresh_or_delta-IsTracked fs none s = (tt, refl)
  fresh_or_delta-IsTracked fs (some snap) s = send_listing-IsTracked snap s

  with_files-IsTracked :
      (last : Text) (b : Bool) (p : List Sent × Stream)
      → IsTracked last p
      → IsTracked last (with_files b p)
  with_files-IsTracked last b (out, s) h = h

  refreshed-IsTracked :
      (last : Text) (now : ℕ) (p : List Sent × Stream)
      → IsTracked last p
      → IsTracked last (refreshed now p)
  refreshed-IsTracked last now (out, s) h = h

  delta-IsTracked :
      (b : Bool) (now : ℕ) (fs : Fields) (fresh : Option Fields) (s : Stream)
      → IsTracked s.last_sent (
          if b
          then refreshed now (fresh_or_delta J fs fresh s)
          else (Sent.forwarded (Json.object fs) ∷ [], s))
  delta-IsTracked true now fs fresh s =
      refreshed-IsTracked s.last_sent now (fresh_or_delta J fs fresh s)
        (fresh_or_delta-IsTracked fs fresh s)
  delta-IsTracked false now fs fresh s = (tt, refl)

  on_object-IsTracked :
      (now : ℕ) (fs : Fields) (fresh : Option Fields) (files : Option Json) (s : Stream)
      → IsTracked s.last_sent (on_object J now fs fresh files s)
  unfolding on_object
  on_object-IsTracked now fs fresh (some (Json.array xs)) s =
      with_files-IsTracked s.last_sent (lists_files (some (Json.array xs))) (send_changed J fs s)
        (send_changed-IsTracked fs s)
  on_object-IsTracked now fs fresh none s = delta-IsTracked (is_delta fs) now fs fresh s
  on_object-IsTracked now fs fresh (some Json.null) s = delta-IsTracked (is_delta fs) now fs fresh s
  on_object-IsTracked now fs fresh (some (Json.boolean b)) s =
      delta-IsTracked (is_delta fs) now fs fresh s
  on_object-IsTracked now fs fresh (some (Json.number n)) s =
      delta-IsTracked (is_delta fs) now fs fresh s
  on_object-IsTracked now fs fresh (some (Json.decimal x)) s =
      delta-IsTracked (is_delta fs) now fs fresh s
  on_object-IsTracked now fs fresh (some (Json.text t)) s =
      delta-IsTracked (is_delta fs) now fs fresh s
  on_object-IsTracked now fs fresh (some (Json.object gs)) s =
      delta-IsTracked (is_delta fs) now fs fresh s

  on_message-IsTracked :
      (now : ℕ) (v : Json) (fresh : Option Fields) (s : Stream)
      → IsTracked s.last_sent (on_message J now v fresh s)
  unfolding on_message
  on_message-IsTracked now (Json.object fs) fresh s =
      on_object-IsTracked now fs fresh (get (codes "files") fs) s
  on_message-IsTracked now Json.null fresh s = (tt, refl)
  on_message-IsTracked now (Json.boolean b) fresh s = (tt, refl)
  on_message-IsTracked now (Json.number n) fresh s = (tt, refl)
  on_message-IsTracked now (Json.decimal x) fresh s = (tt, refl)
  on_message-IsTracked now (Json.text t) fresh s = (tt, refl)
  on_message-IsTracked now (Json.array xs) fresh s = (tt, refl)

  step-IsTracked : (r : Round) (s : Stream) → IsTracked s.last_sent (step J r s)
  unfolding step
  step-IsTracked r s = by_message r.message
    where
      by_message :
          (m : Option Text)
          → IsTracked s.last_sent (elim m [
            | none ↦ on_silence J r.now r.fresh s
            | some raw ↦ on_message J r.now (message_data (J.loads raw) raw) r.fresh s
          ])
      by_message none = on_silence-IsTracked r.now r.fresh s
      by_message (some raw) = on_message-IsTracked r.now (message_data (J.loads raw) raw) r.fresh s

  followed_by-IsTracked :
      (last : Text) (p : List Sent × Stream) (rest : Stream → List Sent × Stream)
      → IsTracked last p
      → ((s : Stream) → IsTracked s.last_sent (rest s))
      → IsTracked last (followed_by p rest)
  followed_by-IsTracked last (out, s) rest (h, e) later =
      let (h', e') = later s in
      (
        IsFreshEach-append last out (rest s).0 h (subst (λ x. IsFreshEach x (rest s).0) e h'),
        e' ∙ ap (λ x. view x (rest s).0) e ∙ sym (view-append last out (rest s).0),
      )

  -- However the rounds go, the stream never sends a snapshot that the client has just seen: each differs from
  -- the one sent before it, and the state holds the last one sent, which the next is compared with.
  pub run-IsTracked : (rs : List Round) (s : Stream) → IsTracked s.last_sent (run J rs s)
  unfolding run
  run-IsTracked [] s = (tt, refl)
  run-IsTracked (r ∷ rs) s =
      followed_by-IsTracked s.last_sent (step J r s) (run J rs) (step-IsTracked r s)
        (λ s. run-IsTracked rs s)
