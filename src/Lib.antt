-- ===== src/Lib.antt =====
-- clboss: the logic of the automated Lightning Network node manager, and what it promises.
--
-- The parts of the program and where they stand here:
--
--   Ln/Amount.antt         class Ln::Amount of Ln/Amount.hpp and Ln/Amount.cpp: millisatoshis in 64
--                          bits; `add` and `sub` are `+=` and `-=`, `times` and `half` the products
--                          and quotients through a double, Text.antt the text form
--   Ln/Scid.antt           Ln/Scid.cpp: short channel ids, printed and parsed
--   Ln/FeatureBit.antt     Ln/FeatureBit.cpp: bits of a field in hexadecimal text
--   Bitcoin/Le.antt        Bitcoin/le.cpp: little-endian numbers and amounts on streams
--   Bitcoin/VarInt.antt    Bitcoin/varint.cpp: numbers of variable length on streams
--   Bitcoin/Tx.antt        Bitcoin/Tx.cpp with TxIn.cpp, TxOut.cpp, WitnessField.cpp and TxId.cpp:
--                          transactions on streams, as text, and their ids, on top of the two above
--   Util/Hex.antt          Util/Str.cpp: hexdump, hexread and ishex
--   Ev/Semaphore.antt      Ev/Semaphore.cpp: at most so many actions at once
--   Stats/Reservoir.antt   Stats/ReservoirSampler.hpp: a weighted sample of a stream
--   Stats/Median.antt      Stats/WeightedMedian.hpp: the weighted median of fees
--   Creator/Settings.antt  Boss/Mod/AmountSettingsHandler.cpp: the three amount options, at startup
--                          and by setconfig; it publishes the settings that the manager takes
--   Creator/Manager.antt   Boss/Mod/ChannelCreator/Manager.cpp: the handlers and a cycle of channel
--                          creation, which drops nodes with channels, then calls in this order
--   Creator/Rearranger.antt     Boss/Mod/ChannelCreator/RearrangerBySize.cpp,
--   Creator/Reprioritizer.antt  Boss/Mod/ChannelCreator/Reprioritizer.cpp,
--                               `prioritize_by_track_record` of the manager, and
--   Creator/Planner.antt        Boss/Mod/ChannelCreator/Planner.cpp, which divides the funds
--   Creator/Eviction.antt  Boss/Mod/ChannelCandidateInvestigator/EvictionPolicy.cpp: which candidate
--                          leaves a full pool
--   PriceTheory.antt       Boss/Mod/FeeModderByPriceTheory.cpp: the game of cards that finds prices;
--                          a transaction on the database is a function from tables to tables
--   OnchainFee.antt        Boss/Mod/OnchainFeeMonitor.cpp: whether onchain fees are low, by percentiles of
--                          the samples that it keeps in a table
--   Swap.antt              Boss/Mod/SwapManager.cpp: swaps of offchain for onchain funds; the handlers
--                          stand in Address, Settle, Invoice and Onchain.antt of its folder, and
--                          what its greenthreads may do, in any order, and restarts are the
--                          step relation of Swap/Steps.antt
--   Graph/Dijkstra.antt    Graph/Dijkstra.hpp: shortest paths, with the loop that
--                          Boss/Mod/ChannelFinderByDistance.cpp runs it by
--   Base.antt              what the parts share: tests on numbers, lists, maps that are sorted by
--                          their keys, stable sorts, integers, decimal text, bits
--   Tests.antt             runs and theorems at concrete inputs
--
-- State is a record, an operation a function of the name that the code gives it, and a failed
-- assertion or an exception is `none`, or an outcome of its own. Continuations of Ev::Io run one after
-- the other. Where a handler waits and others may run meanwhile, they are modelled: a cycle of the
-- channel manager takes what it finds after each of its waits as an argument, `Moments` of
-- Creator/Manager.antt, and exceptions of what it asks are answers `none`; where a greenthread of the
-- swap manager waits, what follows is a task in the state, and a step resumes any of them. The other
-- handlers do not wait between what they read and what they write, and are one function each; an
-- interleaving of them is a list of events. Node ids and bins are numbers, ordered like the bytes that
-- they stand for. Text and streams are lists of character codes and bytes. A uint64_t is a native
-- number with the remainder by 2 ^ 64 written out. A double occurs with integral values only, rounded
-- to 53 bits, or as a quotient of which the integer part is taken. The conversion of a double to a
-- uint64_t at exactly 2 ^ 64, which C++ leaves undefined, gives 2 ^ 64 in `times`; the properties on
-- products keep below it.
--
-- Arguments stand for what is not computed here: the dowser, which answers alike each time since it
-- is memoized; the random choice, of which it is assumed that it draws one of the items; the shuffle,
-- of which it is assumed that it keeps the items; the card that SQL returns first among those
-- that earned most, of which it is assumed that it is one of them; SHA256, of which nothing is assumed; and the
-- answers of lightningd.
--
-- Fuel: `draw_a_card` and `get_price` recurse on fuel two, and PriceTheory/Draw.antt shows that it
-- suffices. `print_dec` prints at most twenty digits, enough for 64 bits. `widen` of Ln/Amount.antt
-- has fuel for every shift of a product of a 64-bit amount. The loop around Dijkstra's algorithm has
-- fuel for one turn of each node, and Graph/Dijkstra/Shortest.antt shows that it suffices.
--
-- Not modelled: a stop of the program between a commit and the messages that follow it at once; how
-- Boss/Mod/ChannelFinderByDistance.cpp reads channels and computes costs (a graph is an argument of
-- the loop around Dijkstra's algorithm); log texts, status reports, input and output, the event loop,
-- cryptography, the JSON and SQL libraries, and floating-point fee multipliers.
pub mod Base
pub mod Bitcoin
pub mod Creator
pub mod Ev
pub mod Graph
pub mod Ln
pub mod OnchainFee
pub mod PriceTheory
pub mod Stats
pub mod Swap
pub mod Tests
pub mod Util
