-- ===== src/Lib.antt =====
-- NVMRDisplay shows the video of senders that it finds on the network. What it makes of the services
-- that are found is C++ (servicediscover.cpp, embeddedavahibrowse.cpp, avahibrowse.cpp). The services
-- come from the Avahi daemon or, in the build for Android, from an mDNS engine in the program: the C
-- sources in avahi-common and avahi-core, which are those of Avahi, kept in this repository and built as
-- its own (CMakeLists.txt); they are all the C code that it has.
--
-- A service is announced in DNS records. Records come in packets (avahi-core/dns.c), where a name is a
-- chain of labels and pointers; they are kept in a cache for each interface (avahi-core/cache.c) until
-- their time to live runs out or nobody answers for them. The names are text with escapes
-- (avahi-common/domain.c), and the data of a service is a list of strings (avahi-common/strlst.c).
--
-- App.Txt            servicediscover.cpp: the strings of a TXT record as a map.
-- App.Discover       servicediscover.cpp: senders that are found and lost, and the signals to the display.
-- App.Embedded       embeddedavahibrowse.cpp: the call-backs of the engine in the program.
-- App.Browse         avahibrowse.cpp: the handlers of the daemon's signals.
-- Common.StringList  avahi-common/strlst.c. A list is the list of its texts, the newest in front.
-- Common.Utf8        avahi-common/utf8.c, avahi_utf8_valid.
-- Common.Label       avahi-common/domain.c, avahi_unescape_label and avahi_escape_label.
-- Common.Domain      avahi-common/domain.c, normal form, comparison and hash of names.
-- Common.Names       avahi-common/domain.c, the checks avahi_is_valid_... but that of an FQDN.
-- Common.Services    avahi-common/domain.c, avahi_service_name_join and avahi_service_name_split.
-- Common.Timeval     avahi-common/timeval.c, comparison, difference and sum.
-- Core.Cache         avahi-core/cache.c: Cache has avahi_cache_update, Cache.Timers the timers, passive
--                    observation of failure and the flush. Cache.Runs has sequences of calls.
-- Core.Packet        avahi-core/dns.c: the header, numbers and strings; Packet.Names has the names,
--                    Packet.Records keys and records.
-- Core.Records       avahi-core/rr.c: resource records.
-- Core.Prioq         avahi-core/prioq.c. A node is numbered row by row; Prioq.Places has the walk to it.
-- Core.Timeeventq    avahi-core/timeeventq.c: the timers, and the timeout that the event loop is told.
-- Core.Resolver      avahi-core/resolve-service.c: a resolver as a state machine; Resolver.Events has
--                    what it is told, Resolver.Runs sequences of that.
-- Core.Announce      avahi-core/announce.c: an announcer as a state machine; Announce.Members has a group
--                    with its entries, Announce.Group (and avahi-core/entry.c) what is done to it,
--                    Announce.Group.Runs sequences of that.
-- Core.Queries       avahi-core/query-sched.c: queries that wait to be sent; Queries.Sending has what is
--                    sent when a timer expires, Queries.Runs sequences of calls.
-- Core.Queriers      avahi-core/querier.c: the keys that somebody browses for on an interface;
--                    Queriers.Calls has what a call does, Queriers.Runs sequences of them.
-- Core.Responses     avahi-core/response-sched.c: responses that wait to be sent, were sent, or are known;
--                    Responses.Sending has what is sent, Responses.Runs sequences of calls.
-- Core.Keys          avahi-core/rr.c: keys of records, patterns and hash.
-- Core.Compare       avahi-core/rr.c, lexicographical_memcmp.
-- Prelude            shared lists, numbers, integers, characters and outcomes.
--
-- The name of a function is that of the source without its prefix (avahi_, avahi_string_list_,
-- avahi_dns_packet_, avahi_cache_ where that is no loss).
--
-- A C string is the list of its bytes before the NUL; a buffer is its size and what is written to it;
-- a byte is a number below 256. Where the sign of char matters it is an argument. `Outcome` has the
-- results of a function: a value, NULL or -1, a failed assert, and `stuck`, where a loop of the model
-- ran out of fuel. The fuel of a loop over a name is the length of the name, since each round takes a
-- byte at least (Common.Label.Bounds); that of avahi_domain_equal is the sum of both lengths and one.
-- The loop of consume_labels is bounded in the source, by 127 rounds. A node of the priority queue goes
-- up at most as often as its number, and down at most as often as there are nodes (Core.Prioq.Heap).
--
-- The cache takes records, keys and addresses as a parameter (`Ops`, with the laws in `IsOps`), and
-- what it reads of the world (the clock, rand, a product of floating point numbers) as an argument.
-- The chains of its hash table are the entries of a key, in the order of the one list of entries.
--
-- The scheduler of queries takes the equality of keys as a parameter, and packets with the records that
-- are known for a key as another (`Packets`, with the laws in `View`). An answer gets two rounds of the
-- loop that begins a new packet where one is full: an empty packet ends it. The call-back of the owner of
-- a group of entries is a parameter; whether the time to commit a group is reached is an argument. The
-- field `lost` of a group is an auxiliary count for statements, on which nothing depends. The scheduler of responses has records and addresses as a parameter
-- (`Ops`), and packets and auxiliary records as another (`Net`); the fuel of the loop that fills up a
-- packet is the room in an empty one, since each record takes some (`IsNet`).
--
-- Not modelled: failures of malloc, sums of times beyond 63 bits, numbers of users beyond 31 bits,
-- printf forms, the text form of the cache, the order of records; the pointers of the priority queue's
-- tree; sockets, interfaces, the scheduler of probes, record browsers, D-Bus; the display, the web
-- sockets and the settings, which are Qt and GStreamer. What Qt makes of bytes, numbers and addresses is the parameter `Qt`.
pub mod Prelude
pub mod Common
pub mod Core
pub mod App
