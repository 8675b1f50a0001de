-- ===== src/Lib.antt =====
-- The Pact protobuf plugin: a plugin that configures, mocks and verifies contracts over protobuf
-- messages and gRPC calls. This library models the part of it that reads, builds, writes and
-- compares messages.
--
-- The program's parts and the files that model them (paths from the repository's root):
--
-- src/utils.rs, names and routes: Names. `last_name`, `parse_name`, `to_fully_qualified_name`,
-- `split_service_and_method`, `build_grpc_route` and `parse_grpc_route` under their own names.
-- src/utils.rs, searches in descriptors: Lookup, with a function for each search; a HashMap of
-- files is the list of its values in the order in which it is visited.
-- src/message_decoder/mod.rs: Field (ProtobufField and ProtobufFieldData), Defaults (default
-- values), Decoder (decode_message; Decoder/Packed is decode_packed_field and Decoder/Message the
-- loop over the buffer, an arm of the source's match to a function).
-- src/matching.rs: Defaults/Populate is populate_default_values; Matching has the data and
-- compare_value, Matching/Lists compare_repeated_field and the entries of maps, Matching/Maps
-- compare_map_field, Matching/Messages compare_message, Matching/Fields compare_field and
-- Matching/Service `compare`, `match_message` and `match_service`. Matching.Pact is the interface
-- to pact_matching and pact_models. The `compare_field` that the others get stands for the function
-- of that name, which Matching/Fields passes to them. StructJson is struct_field_data_to_json and
-- proto_value_to_json of src/utils.rs.
-- src/dynamic_message.rs: DynamicMessage is `new`, `proto_fields`, `flatten_fields`, `write_to` and
-- `write_field`; DynamicMessage/Paths is `fetch_field_value`, `set_field_value` and `match_path`,
-- DynamicMessage/Codec the encoder and the decoder that tonic calls.
-- src/message_builder.rs, the values that a builder is given: FieldValue (RType and
-- MessageFieldValue; an accessor `as_u64` is `to_u64`, since the cast has that name).
-- src/metadata.rs: Metadata (codes, statuses and results) and Metadata/Compare (`compare_metadata`
-- and `match_metadata_value`, an arm to a function); Metadata.Tonic is the interface to tonic and
-- serde_json.
-- src/message_builder.rs, the builder: Builder (its state and operations, over BTreeMap),
-- Builder/Message (encode_message and an arm of the field types to a function), Builder/Encode and
-- Builder/Packed (single and packed values) and Builder/Markup. Builder/Calls is the specification
-- of the operations. Builder/Wire is the interface to prost's encoding functions.
-- Render is what is made for display: `as_hex`, `display_bytes`, `enum_name` (src/utils.rs),
-- `field_type_name` (src/message_builder.rs) and the accessors of ProtobufFieldData.
-- ProstTypes and Descriptor hold the descriptors of prost_types, Outcome what a call returns: a
-- value, an error or a panic. Base holds the helpers: tests, lists, texts, machine integers, bytes.
--
-- A message is decoded to a list of fields with the descriptors of its type, which Lookup finds by
-- the names that Names takes apart. populate_default_values completes the list for a comparison,
-- and DynamicMessage groups it by number for writing. compare_message goes through the fields of
-- the descriptor, and compare_field decodes the messages in them. A message of an interaction is
-- made by a builder. Libraries is the interface to what is not in the repository: prost's varints
-- and keys, the buffers of the bytes crate and itertools, as a record of operations with their
-- documented laws, which Tests/Instance fills. Parsing a float is a parameter too
-- (Defaults.Floats).
--
-- Numbers are natural numbers and integers with the casts of Rust written out; an f32 or f64 is its
-- bit pattern; a text is its UTF-8 bytes. A buffer that is read is the list of the bytes remaining,
-- one that is written to the list of the bytes appended. The loops of decode_message and of
-- decode_packed_field run on fuel, one more than the bytes of the buffer. That is enough because
-- each round reads a byte at least. The removal of a package from a name in Lookup runs on the
-- length of the name in the same way. encode_with has a fuel of 2, for a message and for the
-- entries of its maps, which hold no maps; embedded messages are recursion on the depth of the
-- builder's type. compare_field runs on the bytes of the expected messages, since a message is
-- longer than the ones in its fields, and so does the JSON of a Struct; no theorem states that this
-- is enough.
--
-- Not modelled: generators (src/message_decoder/generators.rs and `apply_generators` of
-- src/dynamic_message.rs), the metadata that are configured (`process_metadata` of
-- src/metadata.rs), the configuration of interactions (src/protobuf.rs), which stand on the parts
-- modelled here; and src/mock_server.rs, src/mock_service.rs, src/server.rs, src/verification.rs,
-- src/protoc.rs, src/tcp.rs and src/main.rs, which are network, process and file I/O for the most
-- part. Log output is left out.
pub mod Base
pub mod ProstTypes
pub mod Descriptor
pub mod Outcome
pub mod Names
pub mod Lookup
pub mod Field
pub mod Defaults
pub mod Libraries
pub mod Decoder
pub mod DynamicMessage
pub mod FieldValue
pub mod Render
pub mod BTreeMap
pub mod Builder
pub mod StructJson
pub mod Matching
pub mod Metadata
pub mod Tests
