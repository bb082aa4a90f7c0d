-- ===== src/Options.antt =====
-- include/velocypack/Options.h: the options, with their defaults. The handler for custom types is a
-- pointer to code of the caller; only whether it is set is kept here, and likewise for the translator.
use velocypack.Prelude.{ℕ, ◌-◌, ◌^◌, Bool, true, false}

pub data UnsupportedTypeBehavior : Type 0 where
  nullify_unsupported_type convert_unsupported_type fail_on_unsupported_type :
      UnsupportedTypeBehavior

pub data PaddingBehavior : Type 0 where
  use_padding no_padding flexible : PaddingBehavior

pub record Options : Type 0 where
  pub unsupported_type_behavior : UnsupportedTypeBehavior
  pub padding_behavior : PaddingBehavior
  pub has_attribute_translator : Bool
  pub has_custom_type_handler : Bool
  pub build_unindexed_arrays : Bool
  pub build_unindexed_objects : Bool
  pub pretty_print : Bool
  pub single_line_pretty_print : Bool
  pub keep_top_level_open : Bool
  pub clear_builder_before_parse : Bool
  pub validate_utf8_strings : Bool
  pub check_attribute_uniqueness : Bool
  pub escape_forward_slashes : Bool
  pub escape_control : Bool
  pub escape_unicode : Bool
  pub dump_attributes_in_index_order : Bool
  pub unsupported_doubles_as_string : Bool
  pub binary_as_hex : Bool
  pub dates_as_integers : Bool
  pub disallow_externals : Bool
  pub disallow_custom : Bool
  pub disallow_tags : Bool
  pub disallow_bcd : Bool
  pub debug_tags : Bool
  pub nesting_limit : ℕ

-- `Options::Defaults`
abbrev pub defaults : Options
defaults = record {
  unsupported_type_behavior = fail_on_unsupported_type;
  padding_behavior = flexible;
  has_attribute_translator = false;
  has_custom_type_handler = false;
  build_unindexed_arrays = false;
  build_unindexed_objects = false;
  pretty_print = false;
  single_line_pretty_print = false;
  keep_top_level_open = false;
  clear_builder_before_parse = true;
  validate_utf8_strings = false;
  check_attribute_uniqueness = false;
  escape_forward_slashes = false;
  escape_control = true;
  escape_unicode = false;
  dump_attributes_in_index_order = true;
  unsupported_doubles_as_string = false;
  binary_as_hex = false;
  dates_as_integers = false;
  disallow_externals = false;
  disallow_custom = false;
  disallow_tags = false;
  disallow_bcd = false;
  debug_tags = false;
  nesting_limit = 2 ^ 32 - 1;
}
