-- ===== src/Tests/Transactions.antt =====
-- A reply of four parameter bytes and two data bytes, in two messages.
use smb1client.Common.{◌%◌, ◌^◌, ◌≡◌, refl, none, [], ◌∷◌, arith}
use smb1client.Wire.{cut, index}
use smb1client.Smb1.Header.{new_header, is_error}
use smb1client.Smb1.Trans2.{decode_trans2_response, section_at, decode_setup, read_setup}
use smb1client.Client.Transaction.{reassemble, finished}
use smb1client.Client.Transaction.Reassembly.{Message, Carry, arrivals, reassemble_whole}

abbrev parameter_part : Message
parameter_part = (
  record {
    header = new_header 0x32;
    parameters =
        4 ∷ 0 ∷ 2 ∷ 0 ∷ 0 ∷ 0 ∷ 4 ∷ 0 ∷ 56 ∷ 0 ∷ 0 ∷ 0 ∷ 0 ∷ 0 ∷ 0 ∷ 0 ∷ 0 ∷ 0 ∷ 0 ∷ 0 ∷ [];
    content = 0 ∷ 11 ∷ 12 ∷ 13 ∷ 14 ∷ [];
  },
  record {
    total_parameter_count = 4;
    total_data_count = 2;
    reserved = 0;
    parameter_count = 4;
    parameter_offset = 56;
    parameter_displacement = 0;
    data_count = 0;
    data_offset = 0;
    data_displacement = 0;
    setup_count = 0;
    reserved2 = 0;
    setup = [];
    parameters = 11 ∷ 12 ∷ 13 ∷ 14 ∷ [];
    content = [];
  },
)

abbrev data_part : Message
data_part = (
  record {
    header = new_header 0x32;
    parameters =
        4 ∷ 0 ∷ 2 ∷ 0 ∷ 0 ∷ 0 ∷ 0 ∷ 0 ∷ 0 ∷ 0 ∷ 4 ∷ 0 ∷ 2 ∷ 0 ∷ 55 ∷ 0 ∷ 0 ∷ 0 ∷ 0 ∷ 0 ∷ [];
    content = 21 ∷ 22 ∷ [];
  },
  record {
    total_parameter_count = 4;
    total_data_count = 2;
    reserved = 0;
    parameter_count = 0;
    parameter_offset = 0;
    parameter_displacement = 4;
    data_count = 2;
    data_offset = 55;
    data_displacement = 0;
    setup_count = 0;
    reserved2 = 0;
    setup = [];
    parameters = [];
    content = 21 ∷ 22 ∷ [];
  },
)

parts-Carry : Carry 4 2 0 0 (parameter_part ∷ data_part ∷ [])
unfolding decode_trans2_response section_at decode_setup read_setup cut index new_header is_error
parts-Carry = (
  record {
    decodes = refl;
    succeeds = refl;
    total_parameters = refl;
    total_data = refl;
    parameters_at = refl;
    data_at = refl;
    parameters_fit = omega arith;
    data_fit = omega arith;
    some_byte = omega arith;
  },
  (
    record {
      decodes = refl;
      succeeds = refl;
      total_parameters = refl;
      total_data = refl;
      parameters_at = refl;
      data_at = refl;
      parameters_fit = omega arith;
      data_fit = omega arith;
      some_byte = omega arith;
    },
    (refl, refl),
  ),
)

reassemble_whole_example :
    reassemble none (arrivals (parameter_part ∷ data_part ∷ []))
    ≡ finished parameter_part.0 (record (parameter_part.1) {
      parameters = 11 ∷ 12 ∷ 13 ∷ 14 ∷ [];
      content = 21 ∷ 22 ∷ [];
      parameter_count = 4 % 2 ^ 16;
      data_count = 2 % 2 ^ 16;
    })
reassemble_whole_example =
    reassemble_whole parameter_part (data_part ∷ []) 4 2 parts-Carry (omega arith)
