-- ===== src/Handler/Invalidated.antt =====
-- Who invalidates the cache, and how large the cache of dimensions becomes.
use triplet.Common.{
  ℕ, ◌≡◌, refl, ◌⊎◌, inl, inr, Bool, true, false, not, some, Result, ok, err, [], if_elim,
}
use triplet.Text.{Bytes, codes, bytes_eq}
use triplet.Http
use triplet.Http.{Header, Message}
use triplet.Handler.Clients.{cache_invalidation_identifier, authorized_invalidation, client_allowed}
use triplet.Handler.Images.{Handler, Codec, State, Faults}
use triplet.Handler.Serve.{serve_http, serve_unless_invalidation, cors_header}
use triplet.Handler.Invalidation.{invalidate_if_allowed, invalidate}

module _ {Float World Stored Ip Network : Type 0} (c : Codec Float)
    (h : Handler Float World Stored Ip Network) where
  -- An invalidation that was allowed, and what it leaves.
  pub record IsAllowed (s : State World Stored) (now : ℕ) (r : Http.Request) (identifier : Bytes)
      (after : State World Stored) : Type 0 where
    pub posted : bytes_eq r.method (codes "POST") ≡ true
    pub authorized : authorized_invalidation h.invalidation_token r ≡ true
    pub allowed : client_allowed h.net r h.invalidation_networks h.trusted_proxies ≡ true
    pub invalidated : after ≡ (invalidate c h s now (cors_header c h r) identifier).0

  true_of_not : {b : Bool} → not b ≡ false → b ≡ true
  true_of_not {b = true} q = refl
  true_of_not {b = false} q = cc

  -- Either nothing changed, or an invalidation of what was asked was allowed.
  abbrev pub Outcome :
      State World Stored → ℕ → Http.Request → Result Message Bytes → State World Stored → Type 0
  Outcome s now r asked after =
      (after ≡ s)
      ⊎ ((identifier : Bytes) × (asked ≡ ok identifier) × IsAllowed s now r identifier after)

  pub invalidate_if_allowed-Outcome :
      (s : State World Stored) (now : ℕ) (r : Http.Request) (asked : Result Message Bytes)
      → Outcome s now r asked (invalidate_if_allowed c h s now r (cors_header c h r) asked).0
  unfolding invalidate_if_allowed
  invalidate_if_allowed-Outcome s now r (err m) = inl refl
  invalidate_if_allowed-Outcome s now r (ok identifier) =
      if_elim (λ (out : State World Stored × Http.Response). Outcome s now r (ok identifier) out.0)
        (not (bytes_eq r.method (codes "POST"))) (λ other. inl refl)
        (λ posted.
          if_elim
            (λ (out : State World Stored × Http.Response). Outcome s now r (ok identifier) out.0)
            (bytes_eq h.invalidation_token []) (λ off. inl refl)
            (λ on.
              if_elim
                (λ (out : State World Stored × Http.Response).
                  Outcome s now r (ok identifier) out.0)
                (not (authorized_invalidation h.invalidation_token r)) (λ stranger. inl refl)
                (λ known.
                  if_elim
                    (λ (out : State World Stored × Http.Response).
                      Outcome s now r (ok identifier) out.0)
                    (not (client_allowed h.net r h.invalidation_networks h.trusted_proxies))
                    (λ outside. inl refl)
                    (λ inside. inr (
                      identifier,
                      refl,
                      record {
                        posted = true_of_not posted;
                        authorized = true_of_not known;
                        allowed = true_of_not inside;
                        invalidated = refl;
                      },
                    )))))

  -- A request whose path asks for an invalidation leaves the state as it is, or it is a POST with the
  -- token, from a client that is allowed, of an identifier that can be read, and the state is that
  -- after the invalidation of this identifier.
  pub serve_http-IsAllowed :
      (faults : Faults) (s : State World Stored) (now : ℕ) (r : Http.Request)
      (asked : Result Message Bytes)
      → cache_invalidation_identifier c.unescape_text h.prefix r.escaped_path ≡ some asked
      → let after = (serve_http c h faults s now r).0 in
        (after ≡ s)
        ⊎ ((identifier : Bytes) × (asked ≡ ok identifier) × IsAllowed s now r identifier after)
  unfolding serve_http serve_unless_invalidation
  serve_http-IsAllowed faults s now r asked e = rw e (invalidate_if_allowed-Outcome s now r asked)
