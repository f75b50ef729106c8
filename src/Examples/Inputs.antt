-- ===== src/Examples/Inputs.antt =====
-- The theorems on names, texts, configurations and files at concrete inputs.
use typedb_mcp.Prelude.{
  ℕ, ◌≡◌, refl, true, false, not, ◌&&◌, ◌||◌, none, some, List, [], ◌∷◌, arith, bytes,
}
use typedb_mcp.Coordinator.{new}
use typedb_mcp.Coordinator.Exclusive.{Act, takes, drops, acts, IsCounted, acts_exclusive}
use typedb_mcp.Errors.{retriable_in_same_tx, classify_typedb_error}
use typedb_mcp.Errors.Lifecycle.{
  mentions_teardown, mentions_refusal, mentions_abort, mentions_static, retriable-classify,
}
use typedb_mcp.Config.{
  TypeDbConfig, ConnectionSettings, legacy, addresses, is_blank, is_some_nonempty, present,
  pick_address, from_config,
}
use typedb_mcp.Config.Addresses.{from_config_drops_translation}
use typedb_mcp.Migration.Frames.{ok, read_varint, frames, validate_frames}
use typedb_mcp.Migration.Frames.Stream.{AnyHeader, Stream, last, end, frame, validate_frames-Stream}
use typedb_mcp.Migration.Frames.Accepts.{validate_frames-ok}
use typedb_mcp.Examples.Demo.{demo_typedb}

abbrev two_takes : List Act
two_takes = takes "shop" ∷ takes "shop" ∷ drops "shop" ∷ takes "shop" ∷ []

acts_exclusive_example : IsCounted (acts (record { coordinator = new; alive = [] }) two_takes)
acts_exclusive_example = acts_exclusive two_takes

retriable-classify_example :
    retriable_in_same_tx (classify_typedb_error "TSV9" (bytes "[TSV9] no")) ≡ (
      not (mentions_teardown (bytes "[TSV9] no"))
      && (mentions_refusal (bytes "[TSV9] no")
          || (not (mentions_abort (bytes "[TSV9] no")) && mentions_static (bytes "[TSV9] no"))))
retriable-classify_example = retriable-classify "TSV9" (bytes "[TSV9] no")

abbrev local : ConnectionSettings
local = record {
  address = legacy "localhost:1729";
  tls_enabled = false;
  tls_root_ca_path = none;
  request_timeout = some 30_000_000_000;
  primary_failover_retries = none;
}

abbrev emptied : TypeDbConfig
emptied = record demo_typedb {
  address = "";
  addresses = some [];
  address_translation = some (("a:1", "b:1") ∷ []);
}

abbrev no_address : ConnectionSettings
no_address = record local { address = addresses [] }

from_config_drops_translation_example :
    (is_some_nonempty emptied.address_translation ≡ true) × (no_address.address ≡ addresses [])
unfolding is_blank from_config present pick_address
from_config_drops_translation_example =
    from_config_drops_translation emptied no_address refl refl refl

-- One frame with a payload of two bytes.
abbrev one_frame_file : List ℕ
one_frame_file = 2 ∷ 7 ∷ 9 ∷ []

validate_frames-Stream_example : Stream AnyHeader one_frame_file
unfolding validate_frames frames read_varint
validate_frames-Stream_example =
    validate_frames-Stream one_frame_file (omega arith, (omega arith, (omega arith, tt))) refl

validate_frames-ok_example : validate_frames one_frame_file ≡ ok
validate_frames-ok_example =
    validate_frames-ok one_frame_file
      (frame (2 ∷ []) (7 ∷ 9 ∷ []) [] (last (omega arith)) (omega arith) end refl)
