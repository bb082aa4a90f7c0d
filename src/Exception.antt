-- ===== src/Exception.antt =====
-- src/Exception.cpp and include/velocypack/Exception.h: the error codes and their default messages.
use Prim.Native.Nat.{ℕ}
use Prim.Native.String.{String}

-- `Exception::ExceptionType`.
pub data ExceptionType : Type 0 where
  internal_error : ExceptionType
  not_implemented : ExceptionType
  no_json_equivalent : ExceptionType
  parse_error : ExceptionType
  unexpected_control_character : ExceptionType
  index_out_of_bounds : ExceptionType
  number_out_of_range : ExceptionType
  invalid_utf8_sequence : ExceptionType
  invalid_attribute_path : ExceptionType
  invalid_value_type : ExceptionType
  duplicate_attribute_name : ExceptionType
  need_custom_type_handler : ExceptionType
  need_attribute_translator : ExceptionType
  cannot_translate_key : ExceptionType
  key_not_found : ExceptionType
  bad_tuple_size : ExceptionType
  too_deep_nesting : ExceptionType
  builder_not_sealed : ExceptionType
  builder_need_open_object : ExceptionType
  builder_need_open_array : ExceptionType
  builder_need_open_compound : ExceptionType
  builder_unexpected_type : ExceptionType
  builder_unexpected_value : ExceptionType
  builder_need_subvalue : ExceptionType
  builder_externals_disallowed : ExceptionType
  builder_key_already_written : ExceptionType
  builder_key_must_be_string : ExceptionType
  builder_custom_disallowed : ExceptionType
  builder_tags_disallowed : ExceptionType
  builder_bcd_disallowed : ExceptionType
  validator_invalid_length : ExceptionType
  validator_invalid_type : ExceptionType
  unknown_error : ExceptionType

-- The number that the enum gives to a constant, as `errorCode` returns it.
unfoldable pub error_code : ExceptionType → ℕ
error_code internal_error = 1
error_code not_implemented = 2
error_code no_json_equivalent = 10
error_code parse_error = 11
error_code unexpected_control_character = 12
error_code index_out_of_bounds = 13
error_code number_out_of_range = 14
error_code invalid_utf8_sequence = 15
error_code invalid_attribute_path = 16
error_code invalid_value_type = 17
error_code duplicate_attribute_name = 18
error_code need_custom_type_handler = 19
error_code need_attribute_translator = 20
error_code cannot_translate_key = 21
error_code key_not_found = 22
error_code bad_tuple_size = 23
error_code too_deep_nesting = 24
error_code builder_not_sealed = 30
error_code builder_need_open_object = 31
error_code builder_need_open_array = 32
error_code builder_need_open_compound = 33
error_code builder_unexpected_type = 34
error_code builder_unexpected_value = 35
error_code builder_need_subvalue = 36
error_code builder_externals_disallowed = 37
error_code builder_key_already_written = 38
error_code builder_key_must_be_string = 39
error_code builder_custom_disallowed = 40
error_code builder_tags_disallowed = 41
error_code builder_bcd_disallowed = 42
error_code validator_invalid_length = 50
error_code validator_invalid_type = 51
error_code unknown_error = 999

-- `UnknownError` shares the default branch.
unfoldable pub message : ExceptionType → String
message internal_error = "Internal error"
message not_implemented = "Not implemented"
message no_json_equivalent = "Type has no equivalent in JSON"
message parse_error = "Parse error"
message unexpected_control_character = "Unexpected control character"
message index_out_of_bounds = "Index out of bounds"
message number_out_of_range = "Number out of range"
message invalid_utf8_sequence = "Invalid UTF-8 sequence"
message invalid_attribute_path = "Invalid attribute path"
message invalid_value_type = "Invalid value type for operation"
message duplicate_attribute_name = "Duplicate attribute name"
message need_custom_type_handler = "Cannot execute operation without custom type handler"
message need_attribute_translator = "Cannot execute operation without attribute translator"
message cannot_translate_key = "Cannot translate key"
message key_not_found = "Key not found"
message bad_tuple_size = "Array size does not match tuple size"
message too_deep_nesting = "Too deep nesting in Array/Object"
message builder_not_sealed = "Builder value not yet sealed"
message builder_need_open_object = "Need open Object"
message builder_need_open_array = "Need open Array"
message builder_need_open_compound = "Need open compound value (Array or Object)"
message builder_unexpected_type = "Unexpected type"
message builder_unexpected_value = "Unexpected value"
message builder_need_subvalue = "Need subvalue in current Object or Array"
message builder_externals_disallowed = "Externals are not allowed in this configuration"
message builder_key_already_written = "The key of the next key/value pair is already written"
message builder_key_must_be_string = "The key of the next key/value pair must be a string"
message builder_custom_disallowed = "Custom types are not allowed in this configuration"
message builder_tags_disallowed = "Tagged types are not allowed in this configuration"
message builder_bcd_disallowed = "BCD types are not allowed in this configuration"
message validator_invalid_length = "Invalid length found in binary data"
message validator_invalid_type = "Invalid type found in binary data"
message unknown_error = "Unknown error"
