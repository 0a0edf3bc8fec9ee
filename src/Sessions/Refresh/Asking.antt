-- ===== src/Sessions/Refresh/Asking.antt =====
-- packages/api/src/lib/session.ts: how often a request asks the provider for tokens.
use telephone_booth_operator.Common.{
  ap, holds, ltb, find_first, is_empty, ℕ, ◌+◌, ◌<◌, List, ◌≡◌, refl, sym, subst, ◌∙◌, Bool, true,
  false, ◌||◌, not, Option, none, some, Text, if◌then◌else◌, Option-cases, inl, inr, arith,
}
use telephone_booth_operator.Sessions.{verify_cookie_value}
use telephone_booth_operator.Sessions.Secrets.{
  Secret, absent, undecipherable, plain, decrypt_session_secret,
}
use telephone_booth_operator.Sessions.Lifetime.{
  OperatorSession, session_is_expired, access_token_is_fresh, is_due_for_renewal,
  session_needs_revalidation, renewed,
}
use telephone_booth_operator.Sessions.Backoff.{
  Backoff, is_backoff, refresh_is_cooling_down, note_refresh_failure, refresh_backoff_base_ms,
}
use telephone_booth_operator.Sessions.Backoff.Cooling.{note_refresh_failure-cools}
use telephone_booth_operator.Sessions.Reading.{
  Moment, reading, revalidating, extending, ending, UserInfo, claims, userinfo_rejected,
  userinfo_unavailable, Request, World, find_session, at_moment, update_session, clear_backoff,
  put_cookie, read_session, destroy_session, end_session, touch,
}
use telephone_booth_operator.Sessions.Refresh.{
  Reading, signed_in, signed_out, failed, after_update, mark_validated, take_userinfo,
  use_access_token, revalidate_session_against_idp, after_extension, extend_session_lifetime,
  extended, after_refreshing, check_session, read_valid_session, validated_at, expiring_at,
}
use telephone_booth_operator.Sessions.Refresh.Tokens.{
  Refreshed, refreshed, ended, crashed, use_refresh_token, refresh_if_access_token_expired,
}
use telephone_booth_operator.Sessions.Refresh.Keeping.{find_session-id}

read_session-grants :
    (r : Request) (m : Moment) (w : World) → (read_session r m w).0.grants ≡ w.grants
unfolding read_session touch
read_session-grants r m w = elim (Option-cases (verify_cookie_value r.runtime r.cookie)) [
  | inl h ↦ rw (read_session, h) refl
  | inr (id, h) ↦ elim (Option-cases (find_session id w.rows)) [
    | inl e ↦ rw (read_session, h, e) refl
    | inr (s, e) ↦ rw (read_session, h, e) refl
  ]
]

end_session-grants :
    (b : Bool) (o : World × Option OperatorSession) → (end_session b o).grants ≡ o.0.grants
unfolding end_session clear_backoff
end_session-grants b (w, none) = refl
end_session-grants b (w, some s) = refl

destroy_session-grants : (r : Request) (w : World) → (destroy_session r w).grants ≡ w.grants
unfolding destroy_session at_moment
destroy_session-grants r w =
    end_session-grants r.delete_fails (read_session r ending (at_moment r ending w))
    ∙ read_session-grants r ending (at_moment r ending w)

abbrev HasGrants : ℕ → Option (World × OperatorSession) → Type 0
HasGrants n none = Unit
HasGrants n (some (w, s)) = w.grants ≡ n

update_session-HasGrants :
    (f : OperatorSession → OperatorSession) (id : Text) (w : World)
    → HasGrants w.grants (update_session f id w)
unfolding update_session
update_session-HasGrants f id w = elim (Option-cases (find_session id w.rows)) [
  | inl e ↦ rw (HasGrants, update_session, e) tt
  | inr (s, e) ↦ rw (HasGrants, update_session, e) refl
]

grants-either :
    {A : Type 0} (n : ℕ) (b : Bool) (x y : World × A)
    → x.0.grants ≡ n
    → y.0.grants ≡ n
    → (if b then x else y).0.grants ≡ n
grants-either n true x y hx hy = hx
grants-either n false x y hx hy = hy

after_update-grants :
    (s : OperatorSession) (now : World) (o : Option (World × OperatorSession))
    → HasGrants now.grants o
    → (after_update s now o).0.grants ≡ now.grants
unfolding after_update
after_update-grants s now none h = refl
after_update-grants s now (some (written, updated)) h = h

after_extension-grants :
    (s : OperatorSession) (now : World) (o : Option (World × OperatorSession))
    → HasGrants now.grants o
    → (after_extension s now o).0.grants ≡ now.grants
unfolding after_extension put_cookie
after_extension-grants s now none h = refl
after_extension-grants s now (some (written, updated)) h = h

module _ (r : Request) where
  mark_validated-grants :
      (s : OperatorSession) (w : World) → (mark_validated r s w).0.grants ≡ w.grants
  unfolding mark_validated at_moment
  mark_validated-grants s w =
      let now = at_moment r revalidating w in
      after_update-grants s now _
        (update_session-HasGrants (validated_at (r.clock revalidating)) s.id now)

  take_userinfo-grants :
      (s : OperatorSession) (w : World) (u : UserInfo) → (take_userinfo r s w u).0.grants ≡ w.grants
  unfolding take_userinfo
  take_userinfo-grants s w (claims true) = mark_validated-grants s w
  take_userinfo-grants s w (claims false) = destroy_session-grants r w
  take_userinfo-grants s w userinfo_rejected = destroy_session-grants r w
  take_userinfo-grants s w userinfo_unavailable = mark_validated-grants s w

  use_access_token-grants :
      (s : OperatorSession) (w : World) (o : Secret)
      → (use_access_token r s w o).0.grants ≡ w.grants
  unfolding use_access_token
  use_access_token-grants s w undecipherable = refl
  use_access_token-grants s w absent = refl
  use_access_token-grants s w (plain token) =
      grants-either w.grants (is_empty token) _ _ refl (take_userinfo-grants s w r.userinfo)

  revalidate-grants :
      (s : OperatorSession) (w : World) → (revalidate_session_against_idp r s w).0.grants ≡ w.grants
  unfolding revalidate_session_against_idp
  revalidate-grants s w =
      grants-either w.grants
        (not r.oidc_enabled || not (session_needs_revalidation r.settings (r.clock revalidating) s))
        _ _ refl (use_access_token-grants s w (decrypt_session_secret r.cipher s.access_token))

  extend_session_lifetime-grants :
      (s : OperatorSession) (w : World) → (extend_session_lifetime r s w).0.grants ≡ w.grants
  unfolding extend_session_lifetime at_moment
  extend_session_lifetime-grants s w =
      let now = at_moment r extending w in
      let next = renewed r.settings (r.clock extending) s in
      grants-either w.grants (not (is_due_for_renewal r.settings (r.clock extending) s)) _ _ refl (
        after_extension-grants s now _
          (update_session-HasGrants (expiring_at next.expires_at) s.id now))

  extended-grants : (o : World × Reading) → (extended r o).0.grants ≡ o.0.grants
  unfolding extended
  extended-grants (w, signed_in s) = extend_session_lifetime-grants s w
  extended-grants (w, signed_out) = refl
  extended-grants (w, failed) = refl

  after_refreshing-grants : (o : World × Refreshed) → (after_refreshing r o).0.grants ≡ o.0.grants
  unfolding after_refreshing
  after_refreshing-grants (w, ended) = refl
  after_refreshing-grants (w, crashed) = refl
  after_refreshing-grants (w, refreshed x) =
      grants-either w.grants x.access_token_stale _ _ (extended-grants (w, signed_in x.session)) (
        extended-grants (revalidate_session_against_idp r x.session w)
        ∙ revalidate-grants x.session w)

  use_refresh_token-grants :
      (s : OperatorSession) (w : World) (o : Secret)
      → refresh_is_cooling_down s.id (r.clock reading) w.backoffs ≡ true
      → (use_refresh_token r s w o).0.grants ≡ w.grants
  unfolding use_refresh_token
  use_refresh_token-grants s w undecipherable h = refl
  use_refresh_token-grants s w absent h = destroy_session-grants r w
  use_refresh_token-grants s w (plain token) h =
      grants-either w.grants (is_empty token) _ _ (destroy_session-grants r w) (rw h refl)

  refresh_if_access_token_expired-grants :
      (s : OperatorSession) (w : World)
      → refresh_is_cooling_down s.id (r.clock reading) w.backoffs ≡ true
      → (refresh_if_access_token_expired r s w).0.grants ≡ w.grants
  unfolding refresh_if_access_token_expired clear_backoff
  refresh_if_access_token_expired-grants s w h =
      grants-either w.grants (access_token_is_fresh (r.clock reading) s) _ _ refl
        (use_refresh_token-grants s w (decrypt_session_secret r.cipher s.refresh_token) h)

  check_session-grants :
      (o : World × Option OperatorSession)
      → ((s : OperatorSession)
          → o.1 ≡ some s
          → refresh_is_cooling_down s.id (r.clock reading) o.0.backoffs ≡ true)
      → (check_session r o).0.grants ≡ o.0.grants
  unfolding check_session
  check_session-grants (w, none) h = refl
  check_session-grants (w, some s) h =
      grants-either w.grants (session_is_expired r.settings (r.clock reading) s) _ _
        (destroy_session-grants r w)
        (after_refreshing-grants (refresh_if_access_token_expired r s w)
          ∙ refresh_if_access_token_expired-grants s w (h s refl))

read_session-cooling :
    (r : Request) (now : World) (id : Text)
    → verify_cookie_value r.runtime r.cookie ≡ some id
    → refresh_is_cooling_down id (r.clock reading) now.backoffs ≡ true
    → (s : OperatorSession) → (read_session r reading now).1 ≡ some s
    → refresh_is_cooling_down s.id (r.clock reading) (read_session r reading now).0.backoffs ≡ true
unfolding read_session touch
read_session-cooling r now id h c s = elim (Option-cases (find_session id now.rows)) [
  | inl e ↦ rw (read_session, h, e) (λ k. ground (arith, k))
  | inr (row, e) ↦
      rw (read_session, h, e)
        (λ k.
          let same : row ≡ s = ground (arith, k) in
          subst {A = OperatorSession}
            (λ x. refresh_is_cooling_down x.id (r.clock reading) now.backoffs ≡ true) same
            (subst (λ j. refresh_is_cooling_down j (r.clock reading) now.backoffs ≡ true)
              (sym (find_session-id id now.rows row e)) c))
]

-- A session that is cooling down costs the provider no request for tokens: whatever the state of its
-- access token and whatever other requests do, reading it asks for none.
pub read_valid_session-cooling :
    (r : Request) (w : World) (id : Text)
    → verify_cookie_value r.runtime r.cookie ≡ some id
    → refresh_is_cooling_down id (r.clock reading) w.backoffs ≡ true
    → (read_valid_session r w).0.grants ≡ w.grants
unfolding read_valid_session at_moment
read_valid_session-cooling r w id h c =
    let now = at_moment r reading w in
    check_session-grants r (read_session r reading now) (read_session-cooling r now id h c)
    ∙ read_session-grants r reading now

same_entry-cooling :
    (id : Text) (now : ℕ) (bs cs : List Backoff)
    → find_first (is_backoff id) bs ≡ find_first (is_backoff id) cs
    → refresh_is_cooling_down id now bs ≡ refresh_is_cooling_down id now cs
unfolding refresh_is_cooling_down
same_entry-cooling id now bs cs h = ap (holds (λ (b : Backoff). ltb now b.retry_at)) h

-- A session whose refresh failed because the provider was not available costs it no request for
-- tokens in the next fifteen seconds, as long as the map has its entry, which many later failures of
-- other sessions may evict: whatever the state of its access token, whatever failed before and whatever other
-- requests do to the rows, reading it then asks for none.
pub read_valid_session-backs_off :
    (r : Request) (w : World) (id : Text) (failed_at : ℕ) (bs : List Backoff)
    → verify_cookie_value r.runtime r.cookie ≡ some id
    → find_first (is_backoff id) w.backoffs
      ≡ find_first (is_backoff id) (note_refresh_failure id failed_at bs)
    → r.clock reading < failed_at + refresh_backoff_base_ms
    → (read_valid_session r w).0.grants ≡ w.grants
read_valid_session-backs_off r w id failed_at bs h b soon = read_valid_session-cooling r w id h (
    same_entry-cooling id (r.clock reading) w.backoffs (note_refresh_failure id failed_at bs) b
    ∙ (note_refresh_failure-cools id failed_at (r.clock reading) bs).0 soon)
