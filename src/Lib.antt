-- ===== src/Lib.antt =====
-- The golly packages: helper libraries for Go programs, here those for text in URLs, reference
-- counts, consistent hashing, hash tables, prefix trees, compression, command lines, accept headers,
-- prime numbers and logging.
--
-- The parts do not call each other, but for the log package, whose loggers hand entries to
-- handlers, and httputil, which looks for a text in a slice. Each module models one file or one
-- type of the repository:
--
--   Url      url/url.go. Quote, QuoteCustom, QuotePlus and QuotePlusCustom are `quote` to
--            `quote_plus_custom` over urlEscape (`url_escape`) and urlEscapeCustom; Unquote and UnquotePlus
--            are over urlUnescape (`url_unescape`). Texts are lists of bytes. The buffers that the code
--            makes, their cursors and a write out of range, which panics, are in the model.
--   RefMap   refmap/refmap.go. Map is two association lists and the last reference; every method is a
--            function of its name. References are 64 bits wide and wrap around.
--   Ring     hash/ring.go. A ring is the sorted list of its buckets. Add, AddWithOpts, Remove, Find,
--            FindMultiple and NewRing are `add_node` to `new_ring`; sort.Sort, SHA-512 and CRC-32 are
--            parameters, with what the code relies on as hypotheses (the sort returns a sorted permutation).
--   Dict     structure/dict.go. The array of chains is a function of the slot; Get, Set, Delete, Keys and
--            FillCount have their names. SipHash is a parameter.
--   PrefixTree  structure/prefixtree.go. A tree is the list of the nodes of its root; Insert, Lookup, Delete and
--            MatchPrefix are `insert` to `match_prefix`, with the loops at a node and among the nodes below it as
--            functions of the two types of a tree; Delete is in PrefixTree.Removal. PrefixTree.Find is what a tree stores.
--   Log      log/. Log has Entry and Handler (log.go, handler.go); Log.Combined the failover handler and
--            the multi handler (handler.go); Log.Stream the handler that StreamHandler makes (stream.go), over
--            a record of the calls of the system; Log.Async the handler that AsyncHandler makes (handler.go), as steps of
--            its goroutine and its callers; Log.Logger the loggers and the pools (logger.go), where
--            a logger is an index into a list, since loggers are shared.
--   Lzf      lzf/lzf.go, Decompress. Lzf.Format is the format of the comment above Compress, as a relation
--            between a stream and what becomes of it. Lzf.Compress has Compress and Preset: `pack` and
--            `copy_rest` are its loops, `turn` is the body of the first.
--   Accept   httputil/httputil.go: Accepts and FindPreferred, over the options that Parse leaves; and
--            structure/slice.go, which FindPreferred calls.
--   Optparse optparse/optparse.go. Optparse has the options of a Parser and the methods that define them (newOpt is
--            `new_opt`); Optparse.Defaults those with a value; Optparse.Parse has Parse, whose loop is
--            `parse_args`. Optparse.Words is the command lines of settings, which Optparse.Settings is about.
--   Prime    prime/prime.go: Between and Select. The table, prime/numbers.go, is a parameter, and what
--            the random source gives is an argument.
--   Base     what these share: tests on numbers, lists over the native numbers, texts, Go maps, integers, and
--            `Outcome`: a call returns a value, returns an error, or panics.
--
-- Loops whose end is not plain from their form take fuel, and running out of it is a result of its
-- own, `err out_of_fuel`, so that a theorem that a value is returned shows that the fuel is enough.
-- Fuel is the number of buckets in the binary search of Ring, the length of the input, or one more,
-- in Lzf (264 for the length of a match), the number of loggers in the walk of Log.Logger, and any
-- number in Delete of Dict, whose loop need not end. An int is a natural number where the code
-- never makes it negative; 64-bit counters wrap where the code counts without a test. Lengths and
-- sizes are below 2 ^ 63.
--
-- Not modelled: the completion of command lines and Commands (optparse), the parsing and the order
-- of accept headers (httputil), bit sets (bitset), decimals (decimal), keys and sealed strings
-- (crypto), signals and exit (process), and files (fsutil); the goroutine of the stream handler;
-- the template formatter (log/formatter.go) and tlsconf, which only call other libraries; and texts
-- that are made for people to read.
pub mod Accept
pub mod Base
pub mod Dict
pub mod Url
pub mod Log
pub mod Lzf
pub mod Optparse
pub mod PrefixTree
pub mod Prime
pub mod RefMap
pub mod Ring
