-- ===== src/Smb1/Trans2.antt =====
-- internal/smb1/trans2.go: the TRANS2 request and response, outside their subcommands.
pub mod Decode
pub mod Budget
use smb1client.Common.{
  ℕ, zero, suc, ◌+◌, ◌-◌, ◌*◌, ◌%◌, ◌^◌, Bool, true, false, not, ◌&&◌, List, [], ◌∷◌, ◌++◌, length,
  ltb, leb, ◌==◌, if◌then◌else◌, replicate, Outcome, ok, err, panic, ◌>>=◌,
}
use smb1client.Wire.{Bytes, put_u16, put_u32, byte_at, u16_of, cut, index}
use smb1client.Smb1.Header.{header_size}

-- `Status`, `ByteCount`, `Pad1` and `Pad2` are never set by the decoder.
pub record Trans2Response : Type 0 where
  pub total_parameter_count : ℕ
  pub total_data_count : ℕ
  pub reserved : ℕ
  pub parameter_count : ℕ
  pub parameter_offset : ℕ
  pub parameter_displacement : ℕ
  pub data_count : ℕ
  pub data_offset : ℕ
  pub data_displacement : ℕ
  pub setup_count : ℕ
  pub reserved2 : ℕ
  pub setup : List ℕ
  pub parameters : Bytes
  pub content : Bytes

pub data Trans2Error : Type 0 where
  parameters_too_short setup_too_short empty_setup setup_too_large : Trans2Error

abbrev pub empty_response : Trans2Response
empty_response = record {
  total_parameter_count = 0;
  total_data_count = 0;
  reserved = 0;
  parameter_count = 0;
  parameter_offset = 0;
  parameter_displacement = 0;
  data_count = 0;
  data_offset = 0;
  data_displacement = 0;
  setup_count = 0;
  reserved2 = 0;
  setup = [];
  parameters = [];
  content = [];
}

-- `binary.LittleEndian.Uint16(b[i:i+2])`
abbrev pub read_u16 : Bytes → ℕ → Outcome Trans2Error ℕ
read_u16 b i = do w ← cut b i (i + 2); ok (u16_of w)

-- The setup words, from offset `i` on.
unfoldable pub read_setup : ℕ → Bytes → ℕ → Outcome Trans2Error (List ℕ)
read_setup zero b i = ok []
read_setup (suc n) b i = do w ← read_u16 b i; ws ← read_setup n b (i + 2); ok (w ∷ ws)

-- The bytes at an absolute offset, where they lie within the data section that begins at
-- `data_start`; nothing otherwise.
unfoldable pub section_at : ℕ → ℕ → ℕ → Bytes → Outcome Trans2Error Bytes
section_at count offset data_start bytes =
    if ltb 0 count
      && (ltb 0 offset
          && (leb data_start offset && leb (offset - data_start + count) (length bytes)))
    then cut bytes (offset - data_start) (offset - data_start + count)
    else ok []

unfoldable pub decode_setup : ℕ → Bytes → Outcome Trans2Error (List ℕ)
decode_setup n params =
    if ltb 0 n
    then (if ltb (length params) (20 + n * 2) then err setup_too_short else read_setup n params 20)
    else ok []

unfoldable pub decode_trans2_response : Bytes → Bytes → Outcome Trans2Error Trans2Response
decode_trans2_response params bytes =
    if length params == 0
    then ok empty_response
    else if ltb (length params) 20
    then err parameters_too_short
    else do
      total_parameter_count ← read_u16 params 0
      total_data_count ← read_u16 params 2
      reserved ← read_u16 params 4
      parameter_count ← read_u16 params 6
      parameter_offset ← read_u16 params 8
      parameter_displacement ← read_u16 params 10
      data_count ← read_u16 params 12
      data_offset ← read_u16 params 14
      data_displacement ← read_u16 params 16
      setup_count ← index params 18
      reserved2 ← index params 19
      setup ← decode_setup setup_count params
      let data_start = header_size + 1 + length params + 2
      parameters ← section_at parameter_count parameter_offset data_start bytes
      content ← section_at data_count data_offset data_start bytes
      ok (record {
        total_parameter_count = total_parameter_count;
        total_data_count = total_data_count;
        reserved = reserved;
        parameter_count = parameter_count;
        parameter_offset = parameter_offset;
        parameter_displacement = parameter_displacement;
        data_count = data_count;
        data_offset = data_offset;
        data_displacement = data_displacement;
        setup_count = setup_count;
        reserved2 = reserved2;
        setup = setup;
        parameters = parameters;
        content = content;
      })

abbrev pub transaction_max_parameter_count : ℕ
transaction_max_parameter_count = 1024

abbrev pub transaction_response_overhead : ℕ
transaction_response_overhead = 64

abbrev pub min_transaction_data_count : ℕ
min_transaction_data_count = 1024

-- The budget is an `int64` difference, compared with 1024 and 65535.
unfoldable pub max_transaction_data_count : ℕ → ℕ → ℕ
max_transaction_data_count max_buffer_size max_parameter_count =
    let budget = max_buffer_size - transaction_response_overhead - max_parameter_count in
    if ltb max_buffer_size
      (min_transaction_data_count + transaction_response_overhead + max_parameter_count)
    then min_transaction_data_count
    else if ltb 65535 budget
    then 65535
    else budget

-- Two bytes for each setup word.
unfoldable pub setup_bytes : List ℕ → Bytes
setup_bytes [] = []
setup_bytes (w ∷ ws) = put_u16 w ++ setup_bytes ws

abbrev pub odd_pad : ℕ → ℕ
odd_pad n = if n % 2 == 0 then 0 else 1

-- The parameter words and the data section of a request.
unfoldable pub encode_trans2_request :
    List ℕ → Bytes → Bytes → Bytes → ℕ → Outcome Trans2Error (Bytes × Bytes)
encode_trans2_request setup params content name max_data_count =
    let setup_count = length setup % 2 ^ 8 in
    let param_count = length params % 2 ^ 16 in
    let data_count = length content % 2 ^ 16 in
    let header_and_params_size = header_size + 1 + 28 + setup_count * 2 + 2 + length name in
    let pad1_size = odd_pad header_and_params_size in
    let param_offset = (header_and_params_size + pad1_size) % 2 ^ 16 in
    let pad2_size = odd_pad ((param_offset + param_count) % 2 ^ 16) in
    let data_offset = (param_offset + param_count + pad2_size) % 2 ^ 16 in
    if length setup == 0
    then err empty_setup
    else if ltb 14 (length setup)
    then err setup_too_large
    else ok (
      put_u16 param_count
          ++ (put_u16 data_count
              ++ (put_u16 transaction_max_parameter_count
                  ++ (put_u16 max_data_count
                      ++ ((0 ∷ 0 ∷ [])
                          ++ (put_u16 0
                              ++ (put_u32 0
                                  ++ (put_u16 0
                                      ++ (put_u16 param_count
                                          ++ (put_u16 param_offset
                                              ++ (put_u16 data_count
                                                  ++ (put_u16 data_offset
                                                      ++ ((setup_count ∷ 0 ∷ [])
                                                          ++ setup_bytes setup)))))))))))),
      name ++ (replicate pad1_size 0 ++ (params ++ (replicate pad2_size 0 ++ content))),
    )
