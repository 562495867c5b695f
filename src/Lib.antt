-- ===== src/Lib.antt =====
-- Verification of grok-codex-bridge, a local bridge that takes the Responses requests of Codex,
-- sends them to Grok or to the first-party service, and brings the event stream back.
--
-- The parts and how they interact. src/protocol.rs is the boundary: it parses a request of Codex,
-- projects its tools and items for Grok, checks each event that comes back and restores the names of
-- tools in it. src/server.rs decides by the model of a request which service it goes to. src/grok.rs
-- sends the projected request, with the credential that src/credential.rs reads from the file of the
-- official helper, and drives the validator of events over the stream. src/native.rs sends a request
-- unchanged to the first-party service, and sends again when that is unavailable; the history that it
-- sends is sanitized by src/protocol.rs first.
-- src/catalog.rs holds the list of Grok's models. A caller shows the capability token of
-- src/config.rs. src/desktop_transition.rs stops the desktop application around a change of its
-- configuration, and src/picker_activation.rs publishes the picker and starts its service, with a way
-- back; src/picker.rs makes the catalog that the picker shows, and src/main.rs makes it anew, and
-- publishes it to the server, when one of its two inputs changes. src/launchd.rs installs the service
-- as a launch agent and takes it away.
--
-- Which file models which part:
--   Json: `serde_json::Value`. A map is a list of entries in the order of their keys, as a `BTreeMap`;
--     a float is exact, a sign and a numerator over a power of two. Json/Same is `==`, and
--     Json/Canonical is `canonicalize_integer_valued_numbers` of src/protocol.rs.
--   Protocol/Error, Protocol/Fields: `ProtocolError` and the helpers that read a field.
--   Protocol/Base64, Protocol/Content, Protocol/Items: the items of the input, each `parse` as a
--     `parse_*` function and each `to_value` as a `*_value` function.
--   Protocol/Input: `parse_input`; Protocol/Input/Project: `project_input_for_xai`.
--   Protocol/Namespace, Protocol/Restore: `NamespaceToolProjection` and the restoration of events;
--     Protocol/Restore/Reasoning: the envelope around reasoning.
--   Protocol/Schema, Protocol/Tools: the schemas of tools, the tools, the ones that a search found, and
--     the choice of a tool.
--   Protocol/Request: `NormalizedResponsesRequest`. Protocol/Routing: `grok_routing_metadata`.
--   Protocol/Sanitize: `sanitize_unreplayable_history_for_native`.
--   Protocol/Event: the kinds of events and the checks on them. Protocol/Stream: `TextStreamValidator`.
--   Grok/Events: `ValidatedTextEventStream` of src/grok.rs.
--   Native/Retry: the loop of `post_with_started` of src/native.rs. Native/Route: `NativeRouteState`.
--     Native/Transport: `NativeApiPath` and the filters on headers.
--   Server: the answers of src/server.rs. Server/Attempt: the loop of posts to Grok of
--     `route_authorized_responses`. Server/Native: `native_response`. Server/Body: `decode_request_copy`
--     and `native_request_body`. Server/Handler: `route_authorized_responses` and the handlers around
--     it, each part of the long function a definition, with what is done outside as a list; Server/World
--     is what they meet. Server/Publish: `replace_catalog`.
--   Desktop: `transition_with_operations` of src/desktop_transition.rs.
--   Picker: `activate_picker_with_operations` of src/picker_activation.rs. Picker/Rollback has a machine
--     for its operations, whose failing calls may leave what they work on in any state.
--   PickerCatalog: the checks of src/picker.rs on a field. PickerCatalog/Entry: `validate_model_entry` and
--     `grok_picker_entry`. PickerCatalog/Generate: `generate_picker_catalog` and
--     `generate_native_compatibility_catalog`. PickerCatalog/Hidden: `with_hidden_grok_compatibility`.
--   Catalog: `ModelCatalog`, `CatalogSnapshot` and `validate_models` of src/catalog.rs.
--   Config: `CapabilityToken` of src/config.rs, its check and its comparison.
--   Credential: `parse_auth_map` of src/credential.rs. Credential/Store: `CredentialStore::load` with its
--     cache. Credential/Renewal: `renew_credential_until` and `ensure_with_official_login`.
--   Launchd: labels and users in src/launchd.rs. Launchd/Spec: `LaunchAgentSpec` and its property list.
--     Launchd/Runner: the commands and what their outcomes say. Launchd/Admission: `admit_launch_agent`.
--     Launchd/Poll: install, uninstall, status and the wait for a state.
--   Maintenance: `FileStamp` and `CatalogInputWatch` of src/main.rs. Maintenance/Sync:
--     `sync_runtime_picker` and one turn of the loop of `maintain_catalogs`.
--   Base: helpers, `Result`, texts by their UTF-8 bytes. Tests: runs at concrete inputs.
--
-- A method that changes its object returns the new one. Rust's `Result` is `Result`, and `?` is a bind.
-- A hash set is a list of its members, and a hash map a list of its entries, the newest first.
--
-- Bounds and fuel. Numbers are natural numbers; the two additions on `u64` in the validator keep what
-- the release build does, to wrap and to saturate. `round_to_f64` shifts at most 11 times, which is
-- enough below 2 ^ 64. The walks over schemas take the number of levels that are left: 33 for the
-- limit of 32 and 9 for the limit of 8, as the source counts them, so running out of them is the
-- source's own limit. The sending loops, the binary search, the wait for the desktop application
-- and the renewal of a credential take fuel; a theorem of each says how much is enough.
--
-- Parameters: the reader and the printer of JSON text (`JsonText`), `Url::parse` (`ParseUrl`), the text
-- of a fresh UUID, SHA-256, zstd, the operations of the system in Desktop and Picker, and what the sends
-- of Native and the posts to Grok come to; the files that are found, the clock, the time that each load
-- of a renewal takes, the official helper and the runner of launchctl, which answers to a command after
-- those that it has run.
--
-- Not modelled: the router of the server, its health checks and its lists of models (src/server.rs), the
-- cache files of the catalog (src/catalog.rs), the files of the configuration (src/config.rs), the installation
-- (src/lifecycle.rs), the managed state of the picker (src/picker.rs), the gate between threads that renew
-- and the paths from the environment (src/credential.rs), paths that are not UTF-8 (src/launchd.rs), the
-- commands (src/cli.rs, src/main.rs) and the scripts: files, processes, HTTP, threads and glue. Log
-- messages are left out everywhere.
pub mod Base
pub mod Json
pub mod Protocol
pub mod Grok
pub mod Native
pub mod Desktop
pub mod Picker
pub mod Tests
pub mod Config
pub mod Catalog
pub mod Server
pub mod Launchd
pub mod Credential
pub mod PickerCatalog
pub mod Maintenance
