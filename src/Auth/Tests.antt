-- ===== src/Auth/Tests.antt =====
-- A library of tokens that are their own payloads.
use prd2tsd.Prelude.{ltb, none, some, false, [], ◌∷◌, ◌≡◌, refl, arith, eq_iff, if◌then◌else◌}
use prd2tsd.Auth.{
  Payload, Jwt, TokenManager, Request, context, get_current_user, get_current_workspace,
  require_permission, create_access_token, create_refresh_token, refresh_access_token,
}
use prd2tsd.Auth.Context.{token_decides, anonymous_chooses, refreshed_loses}

abbrev plain : Jwt
plain = record {
  Token = Payload;
  encode = λ p. p;
  decode = λ now p. if ltb p.exp now then none else some p;
  decode_encode = λ now p. refl;
}

abbrev manager : TokenManager
manager = record { access_expire = 15; refresh_expire = 7 }

token_decides_example :
    context plain 100 (record {
      bearer = some (create_access_token plain manager 50 "j" "u1" "o1" "w1" ("prd:read" ∷ []));
      ws_header = "w2";
      ws_query = "";
    })
    ≡ record { user_id = "u1"; org_id = "o1"; ws_id = "w1"; permissions = "prd:read" ∷ [] }
token_decides_example =
    token_decides plain manager 50 100 "j" "u1" "o1" "w1" "w2" "" ("prd:read" ∷ []) (ground arith)

anonymous_chooses_example :
    let scope = context plain 100 (record { bearer = none; ws_header = "w2"; ws_query = "" }) in
    (get_current_user scope ≡ none)
    × (require_permission "prd:read" scope ≡ false)
    × (get_current_workspace scope ≡ some "w2")
anonymous_chooses_example =
    anonymous_chooses plain 100 none "w2" "" "prd:read" refl
      (λ e. ground (arith, (eq_iff "w2" "").1 e))

refreshed_loses_example :
    let token = create_refresh_token plain manager 0 "j" "u1" in
    let access = create_access_token plain manager 1000 "k" "u1" "" "" [] in
    let with_token : Payload → Request Payload =
      λ t. record { bearer = some t; ws_header = "w1"; ws_query = "" } in
    (refresh_access_token plain manager 1000 "k" token ≡ some access)
    × (refresh_access_token plain manager 1000 "k" access ≡ none)
    × (get_current_user (context plain 1500 (with_token access)) ≡ some "u1")
    × (get_current_workspace (context plain 1500 (with_token access)) ≡ none)
    × (require_permission "prd:read" (context plain 1500 (with_token access)) ≡ false)
    × (get_current_user (context plain 1000 (with_token token)) ≡ some "u1")
refreshed_loses_example =
    refreshed_loses plain manager 0 1000 1500 "j" "k" "u1" "w1" "" "prd:read"
      (λ e. ground (arith, (eq_iff "u1" "").1 e)) (ground arith) (ground arith)
