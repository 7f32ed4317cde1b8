-- ===== src/Lib.antt =====
-- BOMAP: an oblivious map, a search tree whose nodes are the blocks of ORAM trees.
--
-- The program has a client (src/client.cpp) and a service (test_server.cpp). The client keeps the
-- root of a search tree. Below the root are levels of `midNode1`s, a level of `midNode2`s and the
-- leaves, which store the pairs. Each level is in an ORAM tree of its own on the service. To read a
-- node the client fetches the path to the node's position into a cache; after a batch it pads the
-- reads of each tree to two paths and evicts the cache along the paths that were read.
--
-- The modules and the code that they model:
--   Base      shared names: Boolean tests, lists, options and integers on native numbers.
--   Bid       src/Bid.cpp, src/Bid.h and `to_bytes` of src/Types.hpp: the 16-byte identifiers. Order
--             compares them by value, Convert is about `int` and the increment.
--   Node      the capacities, `kvpair` and `kppair` of src/node.hpp, with their operators.
--   Slots     the loops over the arrays of src/node.cpp. An array is the list of its slots, and a
--             read or write outside it is `none`. Holds says which list an array stores; Zipper,
--             Moves, Halves, Shares and Borrows have the loops' lemmas.
--   Leaf      `leafNode` of src/node.cpp: `Insert` is `insert`, `Search` is `search` and `Delete` is
--             `delete`. Spec has the sorted lists of pairs that a leaf stores.
--   Inner     the bodies that `midNode2`, `midNode1` and `rootNode` of src/node.cpp repeat; Mid2,
--             Mid1 and Root are the three classes. Insert, Update, Delete and their companions are about
--             the lists of children that the arrays store.
--   TreePath  `GetNodeOnPath`, the depths and sizes of the trees and the random positions'
--             range, of src/client.cpp and src/ORAM.cpp.
--   Oram      `ORAM::start` and `ORAM::FetchPath` of src/ORAM.cpp and the handler `read_bucket` of
--             test_server.cpp. Fetch, Batch and Parting are about one request, the two requests of a
--             batch, and the part of the second path that the first has not sent.
--   Connector `Connector` of src/Connector.cpp, over the calls of the MongoDB driver.
--   Service   the handlers of test_server.cpp for all trees and the root, with the constructor and the
--             methods of `ORAM` in src/ORAM.cpp that reach the database.
--   Cipher    `AES::GetCiphertextLength` of src/AES.cpp; Aes has `Encrypt` and `Decrypt` with what they
--             call.
--   Bucket    `SerialiseBucket` and `DeserialiseBucket` of src/client.cpp, and their use with the
--             encryption.
--   Client    the members and functions of src/client.cpp for one ORAM tree, for any class of
--             nodes; Trees has them for the leaves, the `midNode2`s and the `midNode1`s. Positions
--             is about its `GetNodeOnPath`, which takes positions below 0, too.
--   Map       the whole client of src/client.cpp. Search is `search`, Insert is `insert` and
--             `m1Update`, Delete is `Delete` and `m1Delete`, Finish is `finish`, and Calls has
--             `search_map`, `insert_map`, `delete_map` and `part_init`. Init is `init` with the
--             ciphertext of `WriteRootNode`. Stored says when the root, the caches and the service's trees store some pairs, and Cached when the caches hold all
--             nodes of three levels. Route is the child for a key, Lower and Upper are the way up of
--             an insertion, Upsert is the insertion as a whole, and Replay are runs of calls.
--
-- Methods return the objects that they write. Numbers are natural numbers; a byte is below 256, and
-- the 32 bits of an `int` and the wrap of the increment are written out. Counts and bucket numbers
-- are below 2 ^ 31 for the sizes that the program is run with and do not wrap.
--
-- The loops run in as many rounds as the code's index has values. `floor_log2 n` has n rounds, and
-- each halves the number. The loop over a reply has as many rounds as the reply has bytes, which is
-- enough since each round takes a whole bucket. The loop of `m1Delete` counts up from a level and
-- leaves the vectors before its L - 3 rounds are over.
--
-- Parameters: the database's query in Oram.fetch_path, to which Service gives that of Connector; the
-- calls of the MongoDB driver (Connector.Driver) and of OpenSSL (Cipher.Aes.OpenSsl), with what is documented of them; how a
-- node lies in memory (`id_of` in Bucket, Map.Init.Memory); in Client.Outside, the service's
-- replies, the random positions of the padding, and the encryption with the copy of the blocks
-- from and to memory. In Client.NodeClass the size of a class in memory is a parameter, too.
-- Map.World has the number of levels, one such service for each tree, and the random positions of
-- the nodes, numbered in the order in which the code draws them; a cache is walked in the order of
-- its list, which stands for the order of a hash table.
--
-- Not modelled: OpenSSL, MongoDB and gRPC; the search of parameters (src/precompute.cpp), which is
-- floating-point arithmetic; the drivers; the constructor of `Connector` and `Setup` of
-- test_server.cpp, which open the database and create the trees; in src/client.cpp the signals to the
-- service and the measurements.
pub mod Base
pub mod Bid
pub mod Node
pub mod Slots
pub mod Leaf
pub mod Inner
pub mod Mid2
pub mod Mid1
pub mod Root
pub mod TreePath
pub mod Oram
pub mod Cipher
pub mod Client
pub mod Map
pub mod Bucket
pub mod Connector
pub mod Service
