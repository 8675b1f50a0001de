-- ===== src/Names.antt =====
-- Names of types, services and gRPC routes: src/utils.rs, last_name to parse_grpc_route.
pub mod Split
pub mod Qualified
pub mod Route
use pact_protobuf_plugin.Base.{
  ℕ, Bool, true, false, Option, none, some, List, [], ◌∷◌, ◌++◌, if◌then◌else◌, drop, is_empty,
}
use pact_protobuf_plugin.Base.Text.{
  Text, starts_with_byte, strip_prefix_byte, split_once, rsplit_once, split_cons, last_or,
  trim_end_matches,
}
use pact_protobuf_plugin.Outcome.{Outcome, Error, ok, err, panic, ok_or, ◌>>=◌}

-- The last name in a dot separated string. `split` has a first part always, so `unwrap_or` is idle.
unfoldable pub last_name : Text → Text
last_name entry_type_name =
    let (first, rest) = split_cons b'.' entry_type_name in last_or first rest

-- A name that starts with '.' is split at its last dot, and one dot before the package goes.
unfoldable pub parse_name : Text → Text × Option Text
parse_name name =
    if starts_with_byte b'.' name
    then (elim (rsplit_once b'.' name) [
      | some (package_part, last) ↦ elim (strip_prefix_byte b'.' package_part) [
        | some trimmed ↦ (last, some trimmed)
        | none ↦ (last, some package_part)
      ]
      | none ↦ (name, none)
    ])
    else (name, none)

-- `.<package>.<name>`, or `.<name>` where the package is empty.
unfoldable pub to_fully_qualified_name : Text → Text → Outcome Text
to_fully_qualified_name [] package_name = err Error.empty_type_name
to_fully_qualified_name (c ∷ name) [] = ok (b'.' ∷ c ∷ name)
to_fully_qualified_name (c ∷ name) (d ∷ package_name) =
    ok (b'.' ∷ d ∷ (package_name ++ (b'.' ∷ c ∷ name)))

-- MyService/MyMethod becomes the service and the method.
unfoldable pub split_service_and_method : Text → Outcome (Text × Text)
split_service_and_method service_name =
    ok_or (split_once b'/' service_name) (Error.service_name_without_method service_name)

-- `.package.Service` and `Method` become `/package.Service/Method`.
unfoldable pub build_grpc_route : Text → Text → Outcome Text
build_grpc_route service_full_name method_name =
    if is_empty service_full_name
    then err Error.empty_service_name
    else if is_empty method_name
    then err Error.empty_method_name
    else let service_no_dot =
        if starts_with_byte b'.' service_full_name
        then drop 1 service_full_name
        else service_full_name in
      ok (b'/' ∷ (service_no_dot ++ (b'/' ∷ method_name)))

-- The string slice `route_key[1..]`, which panics on an empty string.
unfoldable pub without_first : Text → Outcome Text
without_first [] = panic
without_first (c ∷ t) = ok t

-- The service of a split path gets its leading dot back.
unfoldable pub dotted : Option (Text × Text) → Option (Text × Text)
dotted (some (service, method)) = some (b'.' ∷ service, method)
dotted none = none

-- What `parse_grpc_route` does with the trimmed path.
unfoldable pub route_of_trimmed : Text → Outcome (Option (Text × Text))
unfolding without_first
route_of_trimmed route_key = without_first route_key >>= λ rest. ok (dotted (split_once b'/' rest))

-- `/package.Service/Method` becomes `.package.Service` and `Method`. All trailing slashes go first.
unfoldable pub parse_grpc_route : Text → Outcome (Option (Text × Text))
parse_grpc_route route_key =
    if starts_with_byte b'/' route_key
    then route_of_trimmed (trim_end_matches b'/' route_key)
    else ok none
