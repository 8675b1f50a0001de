-- ===== src/Names/Route.antt =====
-- gRPC routes: `parse_grpc_route` undoes `build_grpc_route`.
use pact_protobuf_plugin.Base.{
  ◌≡◌, ◌≢◌, ◌↔◌, refl, some, [], ◌∷◌, ◌++◌, append_assoc, ◌==◌, ==_iff, Bool-cases, inl, inr, All,
  if◌then◌else◌,
}
use pact_protobuf_plugin.Base.Text.{Text, Free, split_once, starts_with_byte, trim_end_matches}
use pact_protobuf_plugin.Outcome.{ok, panic, ok_or-eq-ok}
use pact_protobuf_plugin.Names.{
  build_grpc_route, parse_grpc_route, split_service_and_method, route_of_trimmed, dotted,
}
use pact_protobuf_plugin.Names.Split.{
  split_once-append, split_once→append, trim_end_matches-append, trim_end_matches→All,
  All→trim_end_matches,
}

-- The route of a service without its dot.
route_of-eq :
    (service method : Text)
    → Free b'/' service
    → method ≢ []
    → trim_end_matches b'/' method ≡ method
    → parse_grpc_route (b'/' ∷ (service ++ (b'/' ∷ method))) ≡ ok (some (b'.' ∷ service, method))
unfolding parse_grpc_route
route_of-eq service method free h trim =
    rw (untrimmed)
      (unfold route_of_trimmed dotted in rw (split_once-append b'/' service method free))
  where
    untrimmed :
        trim_end_matches b'/' (b'/' ∷ (service ++ (b'/' ∷ method)))
        ≡ b'/' ∷ (service ++ (b'/' ∷ method))
    untrimmed =
        rw (append_assoc service (b'/' ∷ []) method) at
          (trim_end_matches-append b'/' (b'/' ∷ (service ++ (b'/' ∷ []))) method h trim)

-- The service with the dot of a qualified name in front, if it has none.
abbrev pub with_dot : Text → Text
with_dot service = if starts_with_byte b'.' service then service else b'.' ∷ service

-- A service that is not empty and has no slash in it, and a method that is not empty and does not end
-- in a slash, make a route, and are found again in it; a service that does not start with a dot comes
-- back with one.
pub parse_grpc_route-build_grpc_route :
    (service method : Text)
    → service ≢ []
    → Free b'/' service
    → method ≢ []
    → trim_end_matches b'/' method ≡ method
    → (route : Text) × (build_grpc_route service method ≡ ok route)
      × (parse_grpc_route route ≡ ok (some (with_dot service, method)))
unfolding build_grpc_route
parse_grpc_route-build_grpc_route [] method h free some_method trim = absurd (h refl)
parse_grpc_route-build_grpc_route (c ∷ service) [] h free some_method trim =
    absurd (some_method refl)
parse_grpc_route-build_grpc_route (c ∷ service) (m ∷ method) h free some_method trim =
    elim (Bool-cases (c == b'.')) [
      | inl dot ↦ (
        b'/' ∷ (service ++ (b'/' ∷ m ∷ method)),
        rw (dot),
        rw (dot, (==_iff c b'.').0 dot) (route_of-eq service (m ∷ method) free.1 some_method trim),
      )
      | inr bare ↦ (
        b'/' ∷ c ∷ (service ++ (b'/' ∷ m ∷ method)),
        rw (bare),
        rw (bare) (route_of-eq (c ∷ service) (m ∷ method) free some_method trim),
      )
    ]

-- `split_service_and_method` returns a service and a method exactly where the name is the two with a
-- slash between them and the service holds no slash.
pub split_service_and_method_iff :
    (name service method : Text)
    → (split_service_and_method name ≡ ok (service, method))
      ↔ ((name ≡ service ++ (b'/' ∷ method)) × Free b'/' service)
unfolding split_service_and_method
split_service_and_method_iff name service method = (
  λ e. split_once→append b'/' name service method (ok_or-eq-ok (split_once b'/' name) _ e),
  λ h. rw (h.0, split_once-append b'/' service method h.1),
)

-- What is done with the trimmed path panics only where nothing is left of it.
route_of_trimmed_panics : (t : Text) → route_of_trimmed t ≡ panic → t ≡ []
unfolding route_of_trimmed
route_of_trimmed_panics [] e = refl
route_of_trimmed_panics (c ∷ t) e = cc

-- `parse_grpc_route` panics exactly on the paths that consist of slashes, one at least.
pub parse_grpc_route_panics :
    (path : Text) → (parse_grpc_route path ≡ panic) ↔ ((path ≢ []) × All (λ c. c ≡ b'/') path)
unfolding parse_grpc_route
parse_grpc_route_panics [] = (λ e. cc, λ h. absurd (h.0 refl))
parse_grpc_route_panics (c ∷ path) = (
  λ e. elim (Bool-cases (c == b'/')) [
    | inl slash ↦ (
      (λ q. cc),
      trim_end_matches→All b'/' (c ∷ path) (route_of_trimmed_panics _ (rw slash at e)),
    )
    | inr other ↦ cc (rw other at e)
  ],
  λ h.
      rw ((==_iff c b'/').1 h.1.0, All→trim_end_matches b'/' (c ∷ path) h.1)
        (unfold route_of_trimmed in refl),
)
