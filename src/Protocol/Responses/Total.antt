-- ===== src/Protocol/Responses/Total.antt =====
-- How the parse of a response (src/io/protocol/response_message.hpp) ends.
use cassandra_driver.Base.{ℕ, ◌≡◌, ◌≢◌, refl, length, Option, none, some, arith, Bool}
use cassandra_driver.Base.Result.{stuck, bind-ne-stuck}
use cassandra_driver.Io.{RawBuffer, lift, read_int_be, ensure_size}
use cassandra_driver.Io.Strings.{reserve, read_bytes}
use cassandra_driver.Io.Containers.{read_elements}
use cassandra_driver.Io.Shortens.{Shortens-weaken}
use cassandra_driver.Io.Ends.{Ends, Ends-pure, Ends-bind, Ends-ne-stuck, ends_rules}
use cassandra_driver.Protocol.Frame.{Opcode, FrameHeader}
use cassandra_driver.Protocol.Lz4.{
  Compressor, Lz4Library, lz4_decompress, lz4_compressor, check_unpacked,
}
use cassandra_driver.Protocol.Columns.{parse_column_option}
use cassandra_driver.Protocol.Columns.Fuel.{parse_column_option-Shortens}
use cassandra_driver.Protocol.Responses.Schema.{parse_schema_change, parse_target_options}
use cassandra_driver.Protocol.Responses.{
  ResultKind, read_table, parse_result_column, parse_paging_state, parse_some_metadata, parse_rows,
  parse_prepared, rounds, uncompressed, parse_result_payload, parse_result, do_parse_body,
  parse_body,
}

Ends-parse_column_option : Ends parse_column_option
Ends-parse_column_option = record {
  at = λ bs. Shortens-weaken 0 (length bs) (omega arith) (parse_column_option-Shortens bs);
}

Ends-read_table : (written : Bool) → Ends (read_table written)
unfolding read_table
Ends-read_table written = search ends_rules depth 8

Ends-parse_result_column : (enabled : Bool) → Ends (parse_result_column enabled)
unfolding parse_result_column
Ends-parse_result_column enabled =
    search (ends_rules, Ends-read_table, Ends-parse_column_option) depth 9

Ends-parse_target_options :
    (change_type target : RawBuffer) → Ends (parse_target_options change_type target)
unfolding parse_target_options
Ends-parse_target_options change_type target = search ends_rules depth 12

Ends-parse_schema_change : Ends parse_schema_change
unfolding parse_schema_change
Ends-parse_schema_change = search (ends_rules, Ends-parse_target_options) depth 9

Ends-parse_some_metadata : (flags count : ℕ) → Ends (parse_some_metadata flags count)
unfolding parse_some_metadata
Ends-parse_some_metadata flags count =
    search (ends_rules, Ends-read_table, Ends-parse_result_column) depth 12

Ends-parse_paging_state : (flags : ℕ) → Ends (parse_paging_state flags)
unfolding parse_paging_state
Ends-parse_paging_state flags = search ends_rules depth 6

ruleset parts = (
  ends_rules, Ends-parse_paging_state, Ends-parse_some_metadata, Ends-read_table,
  Ends-parse_result_column,
)

Ends-parse_rows : Ends parse_rows
unfolding parse_rows
Ends-parse_rows = Ends-bind (read_int_be 4) _ (search parts) λ flags.
    Ends-bind (read_int_be 4) _ (search parts) λ count.
      Ends-bind (parse_paging_state flags) _ (search parts) λ paging.
        Ends-bind (parse_some_metadata flags count) _ (search parts) λ (k, t, cs).
          Ends-bind (read_int_be 4) _ (search parts) λ n.
            Ends-bind (lift (reserve n)) _ (search parts) λ _.
              Ends-bind (read_elements (read_elements read_bytes (rounds count)) (rounds n)) _
                (search parts) λ content. Ends-pure _

Ends-parse_prepared : Ends parse_prepared
unfolding parse_prepared
Ends-parse_prepared = search parts depth 14

Ends-parse_result_payload : (kind : ResultKind) → Ends (parse_result_payload kind)
unfolding parse_result_payload
Ends-parse_result_payload ResultKind.rows = search (ends_rules, Ends-parse_rows) depth 7
Ends-parse_result_payload ResultKind.prepared = search (ends_rules, Ends-parse_prepared) depth 7
Ends-parse_result_payload ResultKind.schema_change =
    search (ends_rules, Ends-parse_schema_change) depth 7
Ends-parse_result_payload _ = search ends_rules depth 7

Ends-parse_result : Ends parse_result
unfolding parse_result
Ends-parse_result = search (ends_rules, Ends-parse_result_payload) depth 7

Ends-do_parse_body : (opcode : Opcode) → Ends (do_parse_body opcode)
unfolding do_parse_body
Ends-do_parse_body Opcode.result = search (ends_rules, Ends-parse_result) depth 7
Ends-do_parse_body _ = search ends_rules depth 9

-- A compressor that answers every input.
abbrev pub Answers : Compressor → Type 0
Answers c = (bs : RawBuffer) → c.decompress bs ≢ stuck

pub lz4-Answers : (lz4 : Lz4Library) → Answers (lz4_compressor lz4)
unfolding lz4_decompress read_int_be ensure_size reserve check_unpacked
lz4-Answers lz4 bs = ground arith

plain_or_packed :
    (c : Option Compressor) (answers : (c' : Compressor) → c ≡ some c' → Answers c')
    (bs : RawBuffer)
    → uncompressed c bs ≢ stuck
unfolding uncompressed
plain_or_packed none answers bs = λ e. cc
plain_or_packed (some c) answers bs = answers c refl bs

-- Over a compressor whose decompression ends, the parse of any body under any header ends.
pub parse_body-ne-stuck :
    (c : Option Compressor) (h : FrameHeader) (bs : RawBuffer)
    → ((c' : Compressor) → c ≡ some c' → Answers c')
    → parse_body c h bs ≢ stuck
unfolding parse_body
parse_body-ne-stuck c h bs answers =
    bind-ne-stuck (uncompressed c bs) _ (plain_or_packed c answers bs) λ plain.
      bind-ne-stuck (do_parse_body h.opcode plain) _
        (Ends-ne-stuck (do_parse_body h.opcode) plain (Ends-do_parse_body h.opcode))
        λ (body, _) e. cc
