-- ===== src/Cloud/Custom/Frame.antt =====
-- What the exchange of a direct call leaves alone.
use cluster_api_provider_clo.Prelude.{
  ◌≡◌, ◌⊎◌, inl, inr, String, ◌<>◌, [], ◌∷◌, arith, Result-cases,
}
use cluster_api_provider_clo.Cloud.Types.{Client, CustomServer, Document, create_request, HttpApi}
use cluster_api_provider_clo.Cloud.Custom.{endpoint_of, request_of, send, create_server_direct}

module _ {W : Type 0} (http : HttpApi W) (c : Client W) where
  -- The state after an exchange is that before it, or that after its request.
  send_state :
      (verb url : String) (body : Document) (w : W)
      → ((send http c verb url body w).1 ≡ w)
        ⊎ ((send http c verb url body w).1 ≡ (http.do_request (request_of c verb url body) w).1)
  unfolding send
  send_state verb url body w = elim (Result-cases (http.new_request (request_of c verb url body))) [
    | inr (e, failed) ↦ inl (ground (arith, failed))
    | inl (_, made) ↦ inr (ground (arith, made))
  ]

  pub create_server_direct_state :
      (server : CustomServer) (w : W)
      → ((create_server_direct http c server w).1 ≡ w)
        ⊎ ((create_server_direct http c server w).1
            ≡ (http.do_request
                (request_of c "POST" (endpoint_of c <> "/servers/") (create_request (server ∷ [])))
                w).1)
  unfolding create_server_direct
  create_server_direct_state server w =
      ground
        (arith, send_state "POST" (endpoint_of c <> "/servers/") (create_request (server ∷ [])) w)
