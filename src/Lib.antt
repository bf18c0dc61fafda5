-- ===== src/Lib.antt =====
-- PureWRT: policy routing for OpenWrt by lists of domains and addresses.
--
-- A configuration (internal/config) names sections. A section routes what its provider lists name:
-- through a proxy (mihomo), through zapret (packets on an NFQUEUE), directly, or not at all. The
-- generators write rules for nftables, dnsmasq and mihomo from it; the checker explains what these
-- rules do with a destination; further parts keep the lists, an address database, the health of
-- proxy nodes and a mesh between friends.
--
-- What is modelled, by file, with the code it stands for:
--   Config/Model         internal/config/model.go: the records Section, ZapretProfile and
--                        ZapretStrategy, the part of Settings and Config that the modelled code reads,
--                        and the methods EnabledZapretProfiles to IPv6Routed and SectionByName.
--   Config/Ports         internal/config/section_match.go: parsePortRanges, formatPortRanges,
--                        NormalizeDestinationPorts and IntersectDestinationPorts. Of the children
--                        Canonical and Cover are about merged ranges, Print about their text, and
--                        Intersect and Normal about the intersection.
--   Config/Candidates    internal/config/candidates.go and zapret_references.go: LoadZapretCandidates
--                        on the parsed files, CanonicalBlobPath and ResolveZapretReferences, with the
--                        test that a path is a file as an argument.
--   Config/Applications  internal/config/zapret_applications.go: CompileZapretApplications, which makes
--                        profiles and strategies with their marks of the applications. Whether a list of
--                        application names is nil or empty makes no difference here.
--   Config/Uci           internal/config/uci.go and write.go: the loop of Load over the lines of a file,
--                        and the lines that the writer prints. Config/Uci/Written has the sections as
--                        they are written. What the options mean for the records is not modelled.
--   Config/SectionMatch  internal/config/section_match.go: ValidateMatch and MatchesProtocol.
--   Checker/Scope        internal/checker/routing_trace.go: Flow.Validate and SectionFlowScope.
--   Checker/Trace        the same file: routingSections and the second loop of TraceDestination, which
--                        walks the sections. Its first loop, which fills the map from sections to
--                        matching providers from the rule files, is an argument of the walk.
--   Checker/Providers    internal/checker/rules.go: the index of the rule lists, which reads one list
--                        after the other until one claims the name. Files and the net packages are a
--                        record of functions; a map is a list of its entries.
--   Ipdb                 internal/ipdb/db.go: parseTSV on the lines that the scanner gives out, without
--                        the scanner's error for a line over 1 MiB; Lookup, lookup6 and Count.
--   Ipdb/Blocks          the same file: PrefixesForASN, with the loops that cut a range into blocks.
--   Guard                internal/proxyguard/state.go: the state of the proxy guard.
--   Guard/Latency, Guard/Speed, Guard/LastResort
--                        internal/manager/proxy_guard.go: what a latency window, a transfer and the
--                        quarantine of a group's members lead to.
--   Guard/Members        the same file: the refresh of groups and nodes before a run.
--   Guard/Run            the same file: the loops of ProxyGuardRun, from the recovery of one member to
--                        the fleet, with their budget of probes. What a transfer returns is a function
--                        of its number and the member, an argument of the run.
--   Mesh                 internal/mesh/hmac.go: VerifyRequest and the nonce cache.
--   Mesh/SyncCode        internal/mesh/synccode.go: Encode and DecodeCode.
--   Rules                internal/rules/normalize.go, aggregate.go, model.go: the normal form of domains,
--                        Dedup and SplitOpenWrt.
--   Rules/ParseText      internal/rules/parse_text.go, and ClassifyValue of normalize.go: the lines of a
--                        text list. Letters beyond ASCII keep their case.
--   Mrs/Words, Mrs/Reader, Mrs/Stream, Mrs/Cidrs, Mrs/Trie, Mrs/Native
--                        internal/rules/parse_mrs.go: the arithmetic on addresses in two words, the reads
--                        of a binary list, the two readings of its ranges and of its trie (into a list and
--                        by callbacks), and the functions around them with the compression as argument.
--   Mrs/DomainSet        internal/rules/domainset.go: the lookup in the trie.
--   Geo                  internal/geodb/v2dat.go: the reader of geosite.dat and geoip.dat, whose loops
--                        over the fields of a message are one function with a handler. Geo/Format is an
--                        encoder for the format in the comment of that file.
--   Text                 the functions of strings, strconv and unicode that the code uses, on texts
--                        that are lists of code points.
--   Prelude              lists and results over the native numbers, sort.Slice as insertion sort, and
--                        sort.Search with its interval.
--   Tests                runs at concrete inputs.
-- The checker reads its lists with Rules/ParseText and Mrs; both Mrs/Words and the address database
-- cut ranges into prefixes, each with loops of its own. The guard decides which members mihomo's
-- groups offer; it shares with the checker the order of texts and the search in a list. The checker
-- uses the configuration's port texts, and the address database uses Prelude/Search.
--
-- Conventions. A Go int that is never negative is a ℕ, other ints are ℤ of the native numbers; a
-- machine word keeps its modulus where the code can wrap. A 16-byte address is the number that its
-- bytes spell. sort.Slice is not stable; a model that sorts by insertion is one of the orders that
-- Go may return: equal keys stay in their order. The reason and error texts are constructors. The
-- parsers of addresses (net.ParseIP, netip.ParseAddr), HMAC, base32 and hexadecimal are arguments;
-- what a theorem asks of them stands among its hypotheses. Times are nanoseconds and throughputs
-- bit/s, both ℕ. Where the code makes a string of bytes, each byte is a code point of the model,
-- which is the same for ASCII.
--
-- Bounds and fuel. The loops that cut a range into blocks run on `suc (last - start)` rounds: a
-- block holds at least one address, so this is enough. The loops of the sync code run on the length
-- of what is left to print or read. The binary search runs on the length of the list. The walk of a
-- trie has the 1025 levels of the depth limit of the code; a loop over the children of a node runs
-- on one round more than there are labels, behind which the code's own test ends it. The loops over
-- the fields of a message run on one round for each of its bytes; the error `stuck` of the model
-- marks a loop that is cut off. All else is structural recursion.
--
-- Not modelled: input and output (files, HTTP, nft, mihomo's controller), the generators'
-- templates, the command line, and the parts that PROJECT.json lists as such.
pub mod Prelude
pub mod Text
pub mod Config
pub mod Checker
pub mod Ipdb
pub mod Guard
pub mod Mesh
pub mod Rules
pub mod Mrs
pub mod Geo
pub mod Tests
