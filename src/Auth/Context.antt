-- ===== src/Auth/Context.antt =====
-- Whom and which workspace a request acts for (app/auth, app/main.py).
use prd2tsd.Prelude.{
  ℕ, ◌+◌, ◌*◌, ◌≤◌, String, Option, none, some, false, List, [], ◌≡◌, ◌≢◌, refl, ◌∙◌, arith,
  le→not_ltb, text_other,
}
use prd2tsd.Auth.{
  Payload, Jwt, TokenManager, access_payload, refresh_payload, Request, workspace_context,
  require_permission, get_current_user, get_current_workspace, create_access_token,
  create_refresh_token, verify_token, refresh_access_token, bearer_payload, authenticate, context,
}

module _ (jwt : Jwt) where
  -- A request without a token, or with one that is refused, has no user and no permission, and yet it
  -- acts in the workspace that its header names.
  pub anonymous_chooses :
      (now : ℕ) (bearer : Option jwt.Token) (header query permission : String)
      → bearer_payload jwt now bearer ≡ none
      → header ≢ ""
      → let scope =
          context jwt now (record { bearer = bearer; ws_header = header; ws_query = query }) in
        (get_current_user scope ≡ none)
        × (require_permission permission scope ≡ false)
        × (get_current_workspace scope ≡ some header)
  unfolding context authenticate workspace_context
  anonymous_chooses now bearer header query permission refused named =
      rw refused
        (rw (text_other header "" named) (rw (text_other header "" named) (refl, refl, refl)))

module _ (jwt : Jwt) (m : TokenManager) where
  still_read : (now : ℕ) (p : Payload) → now ≤ p.exp → verify_token jwt now (jwt.encode p) ≡ some p
  still_read now p early = jwt.decode_encode now p ∙ rw (le→not_ltb p.exp now early) refl

  -- A request with an access token that has not expired acts for the user, the organization, the
  -- workspace and the permissions of the token, whatever workspace its header and its address name.
  pub token_decides :
      (issued now : ℕ) (jti user_id org_id ws_id header query : String) (permissions : List String)
      → now ≤ issued + m.access_expire * 60
      → let token = create_access_token jwt m issued jti user_id org_id ws_id permissions in
        context jwt now (record { bearer = some token; ws_header = header; ws_query = query })
        ≡ record { user_id = user_id; org_id = org_id; ws_id = ws_id; permissions = permissions }
  unfolding context authenticate create_access_token
  token_decides issued now jti user_id org_id ws_id header query permissions early =
      rw (still_read now (access_payload m issued jti user_id org_id ws_id permissions) early) refl

  -- A refresh token that has not expired yields an access token for its user, with which no request has
  -- a workspace or a permission, whatever its header names, as long as the new token lasts. An access
  -- token yields none. And a request may carry the refresh token itself, and acts for its user.
  pub refreshed_loses :
      (issued now later : ℕ) (jti jti' user_id header query permission : String)
      → user_id ≢ ""
      → now ≤ issued + m.refresh_expire * 86400
      → later ≤ now + m.access_expire * 60
      → let token = create_refresh_token jwt m issued jti user_id in
        let access = create_access_token jwt m now jti' user_id "" "" [] in
        let with_token : jwt.Token → Request jwt.Token =
          λ t. record { bearer = some t; ws_header = header; ws_query = query } in
        (refresh_access_token jwt m now jti' token ≡ some access)
        × (refresh_access_token jwt m now jti' access ≡ none)
        × (get_current_user (context jwt later (with_token access)) ≡ some user_id)
        × (get_current_workspace (context jwt later (with_token access)) ≡ none)
        × (require_permission permission (context jwt later (with_token access)) ≡ false)
        × (get_current_user (context jwt now (with_token token)) ≡ some user_id)
  unfolding context authenticate create_access_token create_refresh_token refresh_access_token
  refreshed_loses issued now later jti jti' user_id header query permission named early fresh =
      let old : Payload = refresh_payload m issued jti user_id in
      let new : Payload = access_payload m now jti' user_id "" "" [] in
      let read_old = still_read now old early in
      let read_new = still_read later new fresh in
      let read_now = still_read now new (omega arith) in
      let named' = text_other user_id "" named in
      (
        rw read_old (rw named' refl),
        rw read_now refl,
        rw read_new (rw named' refl),
        rw read_new refl,
        rw read_new refl,
        rw read_old (rw named' refl),
      )
