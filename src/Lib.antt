-- ===== src/Lib.antt =====
-- Gjallarhorn, a metadata-private messaging system: a model of its client, its mix servers and its
-- coordinator, with their correctness theorems.
--
-- How the parts work together. A client (client.go) hears of a round from the coordinator
-- (coordinator/server.go), verifies that every mix server has signed the round's settings, takes five
-- messages from its conversations (cmd/gjallarhorn-client/gui.go and conversation.go), seals each in
-- an onion and sends them. At the deadline the coordinator gives the onions of all clients to the
-- first mix server (mixnet/mixnet.go). Each server opens a layer, drops what does not open or repeats,
-- adds noise, shuffles and passes the batch on; the last one exchanges the messages of each dead drop
-- (convo/mixer.go). The replies go back the same way, sealed once by each server, and the coordinator
-- sends each client the piece that is its own.
--
-- Which file models what, with the names of the source in the spelling of this library:
--   Prelude        lists, Go maps as association lists, bytes and big-endian words, `uint32`
--   Convo          convo/mixer.go: HandleMessages; Service: ConvoService as a service of the mixnet, in
--                  a round of the last server; Wire: Marshal and Unmarshal of a dead drop message;
--                  Noise: GenerateNoise and convo/noise.go; Exchange, Counts: their theorems;
--                  Across: two clients through a whole chain; Config: convo/config.go
--   Conversation   cmd/gjallarhorn-client/conversation.go: NextMessage, Reply, rollKey, Status;
--                  Message: Marshal and Unmarshal; Keys: the key wheel and the rounds of a call;
--                  Delivery: two clients over a network that loses, repeats and reorders messages, as
--                  a step relation; Sending, Receiving, Progress, Secrecy, Exchange: theorems
--   Mixnet         Settings: mixnet/settings.go; Filter: filterIncoming; Replies: encryptReplies and
--                  the slice of GetOnions; Rounds: the state of a round; Rounds.Setup: NewRound and
--                  SetRoundSettings; Rounds.Onions: AddOnions and the decryption workers;
--                  Rounds.Closing: CloseRound, GetOnions and DeleteRound; Adding: the requests of
--                  addOnions and streamAddOnions; Starting: the client's NewRound; Fetching:
--                  RunRoundBidirectional's second half; Chain: RunRoundBidirectional against the
--                  handlers of the next server, for a chain of any number of servers; Chain.Trace:
--                  the way of one onion, as a relation
--   Coordinator    coordinator/server.go: incomingOnion, runRound, mixOnions, loop, announcements;
--                  Numbers: the rounds across restarts, with coordinator/persist.go; Exchange: two
--                  clients through the coordinator and a whole chain of servers
--   Client         client.go: newConvoRound, runRound, openReplyOnion; Runs: the client over many
--                  rounds, as a step relation; Active: the table of active conversations of gui.go;
--                  Windows: the windows of gui.go and the calls of
--                  cmd/gjallarhorn-client/alpenhorn.go; Commands: readLine, handleLine and the
--                  table of cmd/gjallarhorn-client/commands.go; Commands.Completion: the Tab key;
--                  Notify: cmd/gjallarhorn-client/notify.go; Connect:
--                  cmd/gjallarhorn-client/connect.go
--   TestHarness    internal/testharness/convostate.go and convohandler.go: the conversations of the
--                  end-to-end tests, and that they speak the client's language
--
-- State is a record and each handler a function from state to state, since most hold their lock while
-- they change state. Two take it in parts, and the parts are definitions of their own: the server's
-- NewRound (start_round is its second part) and the client's calls (get_or_create_convo, start_call).
-- A panic, an endless wait and an error are values of their own. Parallel loops whose rounds write
-- entries of their own are structural recursion; the decryption workers of a round run when the round
-- is closed, which waits for them. No definition runs on fuel but the loop that displays queued
-- messages, whose fuel is the length of the queue: each turn removes an entry, and receive_complete
-- shows that it ends by its own test, and the run through a chain of servers, whose fuel is the number
-- of the servers, which Chain.Trace counts. Words of 32 bits wrap where the source adds or converts,
-- written `% 2 ^ 32` as u32.
--
-- Parameters, with their documented laws where a theorem needs them: NaCl's box and secretbox (16
-- bytes of overhead, a box opens with its nonce and key), onionbox, the key wheel's hash, ed25519
-- signatures, the shuffler (unshuffle undoes shuffle, place by place), Laplace samples (so small that
-- their sum does not wrap, in a NoiseSource) and random bytes, the spans of a parallel loop (they lie side by side), the fetching of configurations, and
-- the next server's answers over gRPC.
--
-- Not modelled: the connections of the mixnet's client, TLS, HTTP and websockets, JSON and files,
-- timers but for that of the desktop notes, the drawing of the screen with the errors of its views (on
-- which the client panics), what /list, /help and /debugfriend print, the client's start-up, the
-- protobuf and easyjson code that is generated, and the start-up of servers and clients in the test
-- harness.
pub mod Prelude
pub mod Convo
pub mod Conversation
pub mod Mixnet
pub mod Coordinator
pub mod Client
pub mod TestHarness
