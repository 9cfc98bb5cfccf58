-- ===== src/Lib.antt =====
-- The Google Pinyin input method for SCIM: what a key does to the pinyin typed, to the candidates and
-- to the windows.
--
-- The parts and how they interact. A key goes to `PinyinIME::process_key` (src/pinyin_ime.cpp), which
-- is a state machine (src/ime_state.h): it asks `FunctionKeys` (src/function_keys.cpp) for the keys
-- that can be configured, edits the pinyin string in `DecodingInfo` (src/decoding_info.cpp), lets that
-- ask the decoding engine through `PinyinDecoderService` (src/pinyin_decoder_service.cpp), and then
-- shows the candidates (`CandidateView`, src/candidate_view.cpp) and the composing string
-- (`ComposingView`, src/composing_view.cpp). Text that is committed may go through
-- `HalfToFullConverter` (src/pinyin_util.cpp).
--
-- The files. Prelude and its children have what the rest shares: the Boolean tests, lists over the
-- native numbers, integers, and the monad of faults. DecoderService, ImeState, FunctionKeys and
-- HalfToFull model the files of these names; FunctionKeys.Updates and HalfToFull.Quotes prove. Scim
-- is the interface to the SCIM headers. DecodingInfo has the record, the constructor and the queries of
-- `DecodingInfo`; its children Edit (typing and deleting), Cursor, Page (the table of pages and the
-- fetching of candidates) and Search (choices and what a search changes) have its operations; Moves,
-- Typing, Paging, Fetching, Decoding, Safety and Edits prove. PinyinIme has the state of `PinyinIME`
-- with that of its two views; Candidates and Composing model the views, Window the windows and the changes of state,
-- Choice `choose_and_update`, Keys the key handlers; States, Reach, Drawing, Resetting, PassThrough,
-- Turning, Sound, Shows, Pages, Steps and Faultless prove. Imengine models the object that SCIM calls
-- (`GooglePyInstance`) and the configuration (`load_user_config`), both of src/google_imengine.cpp;
-- Imengine.Config and Imengine.Focus prove. Each operation keeps the name that it has in the source; a
-- helper is a part of one of them that has no name there. Tests and its children run the model and apply the theorems.
--
-- Of the engine (src/share) there are models of the parts below the search. Spelling: its children
-- Base, Flags, Ids and Build model the trie of spellings (`SpellingTrie`, src/share/spellingtrie.cpp),
-- Parser and Queries the parser that cuts pinyin into spellings (`SpellingParser`,
-- src/share/splparser.cpp); Szm, FullToHalf, Index, Usable, Cuts, Reading, Rounds, Parse and Whole
-- prove. Utf16 models the strings of 16-bit characters (src/share/utf16char.cpp), SearchUtility the
-- items and orders of the searches (src/share/searchutility.cpp), LpiCache the cache of items
-- (src/share/lpicache.cpp), DictList with DictList.Queries the list of words
-- (src/share/dictlist.cpp), and UserDict with UserDict.Cache the key of a search in the user's
-- dictionary and the ring buffers with its last searches, and UserDict.Heap the selection of the words
-- to remove (src/share/userdict.cpp); their other children prove. A pointer is a place in a list, and where two
-- buffers may overlap both are places in one list.
--
-- State and faults. An object is a record, and an operation a function from the old record to the new
-- one. `Option` has `none` where the source reads outside a vector, throws out of `substr` or `insert`,
-- or fails an assertion. A string is the list of its character codes. A `size_t` is a number below
-- 2 ^ 64 and an `unsigned` one below 2 ^ 32, and where the source can wrap round the model writes the
-- wrap out; an `int` that can be negative is an integer. The calls to the user interface
-- (src/google_imengine.cpp) are logged in the state. The views refer to the one `DecodingInfo` object,
-- and that refers to the state of `PinyinIME`: the model has one record with one copy of each.
--
-- Loops are structural recursion over the list, or over the number of rounds that the loop's bound
-- gives; the filling of a page gets `page_size` rounds, more than which its condition never allows.
-- The parser's loop runs on fuel, one more than the characters and the ids that there is room for: each
-- round reads a character or writes an id. The search in a ring buffer gets the number of its slots,
-- and the loop of the heap one more than its size: each round goes to a greater place.
--
-- Parameters. The engine (src/share/matrixsearch.cpp) is a type of states with the operations that the
-- service calls; its `choose` may fault, as it does for a candidate that is not there. No law of the
-- engine is assumed for all calls: a theorem that needs one has as premise that the call in question
-- returns with a consistent answer (`DecodingInfo.Safety.Answered` for one decoding,
-- `DecodingInfo.Safety.Answers` and `PinyinIme.Shows.IsAnswered` for the calls that a key can lead to).
-- `bsearch` and `qsort` of the C library (src/share/mystdlib.cpp) are functions;
-- `DictList.Lookup.IsBsearch` states what the first promises. The SCIM library and the C library's
-- character tests are the record `Scim`.
--
-- Not modelled: of the engine, the search itself with its dictionaries (it is the parameter above), the
-- loading and saving of files, the dictionary builder and the C API; the registration with SCIM, its
-- lookup table, and the setup dialog, which are calls to libraries.
--
pub mod Prelude
pub mod DecoderService
pub mod ImeState
pub mod DecodingInfo
pub mod Scim
pub mod Spelling
pub mod FunctionKeys
pub mod HalfToFull
pub mod PinyinIme
pub mod Imengine
pub mod Tests
pub mod Utf16
pub mod LpiCache
pub mod DictList
pub mod UserDict
pub mod SearchUtility
