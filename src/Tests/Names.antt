-- ===== src/Tests/Names.antt =====
-- Runs of the functions on names and routes.
use pact_protobuf_plugin.Base.{
  ℕ, ◌≡◌, ◌≢◌, ◌↔◌, refl, true, false, none, some, [], ◌∷◌, ◌++◌, All, find, ◌==◌, ==_iff,
  Bool-cases, inl, inr,
}
use pact_protobuf_plugin.Base.Text.{Text, codes, Free, trim_end_matches}
use pact_protobuf_plugin.Outcome.{ok, panic}
use pact_protobuf_plugin.Names.{
  parse_name, last_name, to_fully_qualified_name, build_grpc_route, parse_grpc_route,
  split_service_and_method,
}
use pact_protobuf_plugin.Names.Qualified.{parse_name-to_fully_qualified_name}
use pact_protobuf_plugin.Names.Route.{
  parse_grpc_route-build_grpc_route, split_service_and_method_iff, parse_grpc_route_panics,
}

none-some : {A : Type 0} {x : A} → some x ≡ none → ⊥
none-some e = cc

-- The byte does not stand in the text.
find-Free : (c : ℕ) (t : Text) → find (λ b. b == c) t ≡ none → Free c t
find-Free c [] e = tt
find-Free c (b ∷ t) e = elim (Bool-cases (b == c)) [
  | inl here ↦ absurd (none-some (rw here at e))
  | inr past ↦ ((λ same. true-false ((==_iff b c).1 same) past), find-Free c t (rw past at e))
]
  where
    true-false : (b == c) ≡ true → (b == c) ≡ false → ⊥
    true-false p q = cc

parse_name-to_fully_qualified_name_example :
    (q : Text) × (to_fully_qualified_name (codes "Item") (codes "shop.v1") ≡ ok q)
    × (parse_name q ≡ (codes "Item", some (codes "shop.v1")))
    × (last_name q ≡ codes "Item")
parse_name-to_fully_qualified_name_example =
    parse_name-to_fully_qualified_name (codes "Item") (codes "shop.v1") (λ e. cc)
      (find-Free b'.' (codes "Item") refl) refl

parse_grpc_route-build_grpc_route_example :
    (route : Text) × (build_grpc_route (codes "shop.Shop") (codes "Buy") ≡ ok route)
    × (parse_grpc_route route ≡ ok (some (codes ".shop.Shop", codes "Buy")))
unfolding trim_end_matches
parse_grpc_route-build_grpc_route_example =
    parse_grpc_route-build_grpc_route (codes "shop.Shop") (codes "Buy") (λ e. cc)
      (find-Free b'/' (codes "shop.Shop") refl) (λ e. cc) refl

split_service_and_method_iff_example :
    (split_service_and_method (codes "Shop/Buy") ≡ ok (codes "Shop", codes "Buy"))
    ↔ ((codes "Shop/Buy" ≡ codes "Shop" ++ (b'/' ∷ codes "Buy")) × Free b'/' (codes "Shop"))
split_service_and_method_iff_example =
    split_service_and_method_iff (codes "Shop/Buy") (codes "Shop") (codes "Buy")

parse_grpc_route_panics_example :
    (parse_grpc_route (codes "//") ≡ panic) ↔ ((codes "//" ≢ []) × All (λ c. c ≡ b'/') (codes "//"))
parse_grpc_route_panics_example = parse_grpc_route_panics (codes "//")
