-- ===== src/Lib.antt =====
-- A verification library for openevent-modules-im: the IM protocol SDK (openevent.im_sdk) and the
-- worker that keeps one OpenEvent channel and one provider chat in step (openevent.im_p2p_syncer).
--
-- The worker replays OpenEvent messages into a `RuntimeState`, takes the send.requests that are
-- pending from it, one a channel, sends them through the provider's adapter and publishes their
-- results. In the other direction a `ProviderMessagePuller` a provider reads the history and the live
-- events of each chat, and hands out one event at a time and chat until it is acknowledged; the
-- processor publishes each event as a sync.record. `P2PMappingIndex` says which chat is which
-- channel's, and which principal which user's. `P2PSyncer` is constructed from a configuration,
-- checks the channels, replays the history, starts the pullers, and then reads new messages and
-- calls the processor in turn. Both publish through `ImProtocolClient`, which finds out from
-- OpenEvent whether a publish without an answer was committed.
--
-- Which file models which part:
--   Sdk/Model, Sdk/Normalizer, Sdk/Codec   src/openevent/im_sdk/{model,normalizer,codec}.py
--   OpenEvent                              the OpenEvent client, which is a parameter
--   Client                                 src/openevent/im_sdk/client.py, ImProtocolClient
--   Config                                 src/openevent/im_p2p_syncer/config.py, parse_config
--   Syncer                                 src/openevent/im_p2p_syncer/syncer.py, P2PSyncer, with
--                                          adapter_registry.py
--   Models                                 src/openevent/im_p2p_syncer/models.py
--   Adapter                                src/openevent/im_p2p_syncer/adapters/base.py
--   State                                  src/openevent/im_p2p_syncer/state.py, class RuntimeState
--   Mapping                                src/openevent/im_p2p_syncer/mapping.py, P2PMappingIndex
--   Puller                                 src/openevent/im_p2p_syncer/provider_messages.py
--   Processor                              src/openevent/im_p2p_syncer/loop.py
--   Json, Prelude                          JSON values; Python's dicts, sets, `==` and exceptions
--   Tests                                  concrete inputs for the theorems
--
-- A function has the name that the method has in the source, without a leading underscore; a method
-- that is long is cut into functions by what its parts do. A class is a record of its fields, a dict an
-- association list in insertion order, a set a list. An exception is an `Error` of `Prelude.Results`:
-- its class, and what it was raised from; its text is left out, and logging is, too. Code that raises
-- and keeps no state returns a `Result`. A method that changes its object and calls what is outside
-- is an `Action` on the object and a world `W`, and both outlive an exception. `W` is a parameter, as
-- are the adapters and the clock, which are records of actions on `W`; so no theorem assumes how a
-- provider answers. The client of the processor is a record of its two publish operations, which
-- `Syncer.Model.create_client` fills with those of `Client`.
--
-- The OpenEvent client is a record of actions on `W`, too. The theorems on what is published take a
-- `Client.Service` of it, a record of laws: the messages that one principal has published, which
-- grow by at most one in a call of PublishAutoSeq, whose sequence numbers are new, which GetStatus
-- bounds and Fetch finds. They presume that the principal publishes nothing elsewhere at the same
-- time, and that a call that has failed adds nothing later. The code relies on the same.
--
-- Numbers of the program that are never negative are natural numbers; those that come in as JSON are
-- integers, with the bound of a uint64 where the source checks it. Time is in milliseconds.
-- `json.dumps` and `json.loads` are parameters; `json.loads` raises decoding errors and others, which
-- only some handlers catch. Python's stack is taken to be deep enough: the RecursionError that
-- `reject_source_principal` or a comparison raises on values nested hundreds of levels deep is left
-- out.
--
-- Loops: the loop over a page, over pending events, over the entries of a configuration and over a
-- dict recur on the list. The `while` over the heap recurs on the heap, which shrinks in every
-- round, since what is deferred is put back only after the loop. The heap is a list in heap order,
-- which `heappush` and `heappop` cannot be told from, because the entries are compared as pairs of
-- a number and a text, and equal ones are equal. The `for` loops over a range recur on the number
-- of rounds that are left: the number of sessions, of attempts, or the two kinds of work.
-- The `while` loops that read pages until a sequence number is reached, in `Client.Publish.scan` and
-- `Syncer.History.history_from`, are given as many pages as there are numbers left: a page that
-- does not go forward is an error, so there cannot be more. The loop that polls ends only when the
-- worker is stopped. It is run for a number of rounds, which is an argument.
--
-- A configuration is a loaded YAML value without what JSON has not: dates, infinities, and keys that
-- are no text.
--
-- Not modelled: the Lark adapter and its event stream (adapters/lark_openapi.py,
-- lark_event_stream.py), which call the Lark SDK and run a thread; cli.py; ids.py, which makes a
-- random id; and `load_config`, which opens a file and calls the YAML library. The lock of
-- `P2PSyncer.stop` and what a signal handler does meanwhile are left out.
pub mod Prelude
pub mod Json
pub mod Sdk
pub mod State
pub mod Models
pub mod Syncer
pub mod Mapping
pub mod Adapter
pub mod OpenEvent
pub mod Client
pub mod Config
pub mod Puller
pub mod Processor
pub mod Tests
