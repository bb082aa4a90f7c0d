-- ===== src/Lib.antt =====
-- VelocyPack: a compact binary format for JSON-like values, with its readers and its validator.
--
-- A value is a run of bytes that begins with a head byte. The head fixes the type and, for many types,
-- the length; arrays and objects hold their members, each a value, and often a table of the members'
-- offsets. The library builds such bytes (Builder, Parser), reads them in place (Slice), and checks
-- bytes of unknown origin before anything reads them (Validator). This development models the readers,
-- the validator, the builder, and what these rest on.
--
-- Files and code, by component:
--   Prelude         shared names, Boolean tests, lists, integers, and laws of the bit operations.
--   Exception       include/velocypack/Exception.h and src/Exception.cpp: error codes and messages.
--   Result          the outcome of a call: a value, an exception, or `undefined`.
--   Options         include/velocypack/Options.h.
--   Memory          the bytes behind pointers: a function from addresses, and `*p = b` as `update`.
--   Common          include/velocypack/velocypack-common.h: Integers has readIntFixedHelper,
--                   readIntegerFixed, readIntegerNonEmpty, readUInt64, storeUInt64, toUInt64 and toInt64;
--                   VarLength has getVariableValueLength, readVariableValueLength and
--                   storeVariableValueLength in both directions.
--   ValueType       include/velocypack/ValueType.h and src/ValueType.cpp.
--   SliceStaticData include/velocypack/SliceStaticData.h: FixedTypeLengths, TypeMap, WidthMap, FirstSubMap.
--   Utf8Helper      src/Utf8Helper.cpp: the table `states` and isValidUtf8, and in Spec the encodings of
--                   RFC 3629.
--   Slice           include/velocypack/SliceBase.h and SliceBase.tpp. Head: the type and the predicates.
--                   Numbers: getInt, getUInt, getSmallInt and the unchecked forms. Tags: tags and
--                   valueStart. Size: byteSize and byteSizeDynamic. Text: strings, binaries and BCD
--                   numbers. Compound: length, getNthOffset, at, keyAt, valueAt.
--   Validator       src/Validator.cpp. Lengths: ReadVariableLengthValue and the two length checks.
--                   Simple: strings, custom values, externals. Arrays and Objects: the three layouts of
--                   each. Part: validatePart, validateTagged, validate.
--   Builder         include/velocypack/Builder.h, src/Builder.cpp, and Value.h with src/Value.cpp.
--                   Output is the written bytes with `_pos`; Integers has addUInt and appendUInt, Signed
--                   has addInt, appendInt and intLength. State has the fields `_stack`, `_indexes` and
--                   `_keyWritten`, reportAdd, cleanupAdd, closeLevel, checkKeyHasValidType,
--                   openCompoundValue, openArray, openObject and clear. Outcome says what an operation
--                   leaves when it returns and when it throws. Values has set for a Value and for a Slice,
--                   addUTCDate and appendTag; Pairs has set for a ValuePair and for an IStringFromParts. Add
--                   has addInternal in its four forms, addUnchecked, addExternal and the loops over
--                   iterators. Levels has the invariant of the open levels and the numbers of their members.
--                   Close has closeEmptyArrayOrObject and the steps that closeArray and close share;
--                   Close/Compact has closeCompactArrayOrObject, Close/Arrays closeArray, Close/Names
--                   findAttrName, sortObjectIndex and checkAttributeUniqueness, Close/Objects close.
--   Tests           runs at fixed inputs.
--
-- Interactions. Builder writes the heads and bytes that Slice reads, and asks Slice for the keys of an
-- Object that it checks for duplicates. Slice reads them through Common and dispatches on the tables
-- of SliceStaticData. Validator reads memory in the same way, calls isValidUtf8 on strings, asks Slice
-- for byteSize behind each value that it has accepted, and calls itself on the members: the functions
-- for arrays and objects take that recursive call as an argument of type PartValidator, which
-- validate_part fills.
--
-- Numbers and pointers. A pointer is a natural number and memory is total: reads are not checked for
-- being inside a buffer. ValueLength and size_t arithmetic keeps its wrap-around modulo 2 ^ 64 wherever
-- it can wrap; `_nesting` wraps modulo 2 ^ 32. An int64_t is an integer, and its casts are written out.
-- The host is little-endian with 64-bit pointers, and assertions are off, as in a release build.
--
-- Parameters. A double is the argument Doubles: conversions and the bits, with what each returns left
-- open. The attribute translator is a function from names to a translation, and one from a value that is
-- no String to the name it stands for. What `set` reads, a Slice, bytes or an External, stands in memory
-- of its own, apart from the buffer; growth of the buffer is left out, so reserve is not modelled, and
-- sums of lengths within one buffer are not wrapped where `close` makes them. std::sort is an insertion
-- sort here, which leaves equal names in the order of the list, where std::sort is free to choose; when a
-- name cannot be read, the entries are left as they were before the sort.
--
-- State. A Builder is a record, and an operation takes it and returns a result with the Builder as it
-- is by then, also when it throws. The one mutable field of Validator is `_nesting`: each of its
-- functions takes the level before the call and returns the level behind it.
--
-- Errors. A throw is the value `throws e` with the code's exception. `undefined` is what C++ leaves
-- undefined, or a loop with no end: a write behind a table, which the source does not test for, a
-- shift by 64 or more, and the calls between getIntUnchecked and getSmallIntUnchecked on a UInt, which
-- never end.
--
-- Fuel. validate gives validate_part one unit more than there are bytes, and each call inside is on
-- fewer bytes. The loops over the members of an array have as many rounds as bytes, tagged_loop as
-- well; the loop over the pairs of an indexed object has one round more than pairs are announced, and
-- throws in that round at the latest. The loops over tags have 2 ^ 64 rounds, and each takes two
-- bytes. readVariableValueLength has ten rounds, since in an eleventh its shift is 70;
-- ReadVariableLengthValue stops in the ninth by itself.
--
-- Not modelled: Parser, Dumper, Collection, Compare, iterators, and Buffer with its growth; of Builder its
-- constructors, copies and moves, toString and toJson, getKey and hasKey, Serializable and the scope
-- guards; the hash functions; key search in objects; the SIMD variants of UTF-8 validation.
pub mod Prelude
pub mod Exception
pub mod Result
pub mod Options
pub mod Memory
pub mod Common
pub mod ValueType
pub mod SliceStaticData
pub mod Utf8Helper
pub mod Slice
pub mod Validator
pub mod Builder
mod Tests
