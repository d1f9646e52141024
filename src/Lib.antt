-- ===== src/Lib.antt =====
-- The memory research of python/: values that a neural memory reads and writes, the transport of a
-- selected value into a reply, and the compilation of training trajectories.
--
-- The contract (python/neural_memory_contract.py, Contract) has the immutable values: messages,
-- contexts, spans of messages, episodes, snapshots of memory, batches of writes and reads. A batch
-- is validated against a snapshot and a context, a read against a snapshot. The protocol
-- (python/neural_memory_protocol.py, Protocol) says what a measurement may use and scores a
-- response against a rubric. The generation prompt (python/neural_memory_generation.py and
-- validate_input of python/episode_memory_inputs.py, Generation) renders the context of a record
-- as ChatML. The value transport (python/value_transport.py and python/append_value_transport.py,
-- Transport) takes a handle, which selects bytes of a snapshot, to a cursor, which gives the
-- tokens of those bytes one by one behind the actual prefix of a reply. The teacher
-- (python/value_teacher_trajectory.py with python/fine_span_supervision.py,
-- python/joint_span_supervision.py, positive_bytes of python/check_fine_span_interface.py and
-- sentence of python/prepare_joint_binding_curriculum.py, Teacher) drives such a cursor from gold
-- labels and records the phases.
--
-- The controller (python/autonomous_value_controller.py, Controller) is the state machine of one
-- reply: propose chooses a token of the model or of a value, commit acknowledges what was emitted.
-- Its calls in any order are the step relation of Controller/Reach. The neural reader is a
-- parameter; the constructor sees the digests of its model and inputs and whether the checks of
-- the codec and the layout raise; of the tensors, a call sees their versions, whether the frame's
-- are valid, and the position of the largest logit. An object that is compared by identity has a
-- number. Around it the controller of python/uncertainty_reply_controller.py (Uncertainty) lets a
-- branch of its own speak once the core needs uncertainty.
--
-- The reply loop of greedy_generate is Generation/Greedy, on the range of its limit, with the
-- forward pass as a parameter. FreeReply is python/free_reply_protocol.py: two reviews of free
-- replies and their counts. Bundle is the scoring of python/review_neural_memory.py: which cases
-- pass. Schedule is python/joint_binding_schedule.py. Versions is
-- python/validate_typed_version_memory.py: chains of versioned events and the resolution of
-- targets.
--
-- Dialogue is python/prepare_repeated_dialogue_curriculum.py, the generator of a curriculum of
-- dialogues whose facts are updated. Dialogue/Catalog has its tables, Dialogue/Bank
-- build_episode_bank, Dialogue/Rows answer_spans and make_row, Dialogue/Worlds build_world with
-- one function for each branch of its loop, Dialogue/Splits write_split, and Dialogue/Main the
-- checks and the calls of main. The facts of a bank are a store by event, and the history of a key
-- is a list of places in it, since the code sets the versions through objects that both hold.
-- random.Random is the record Random, of which it is known that randbelow stays below a positive
-- bound. Dialogue/Format and Dialogue/Dates are what is used of str and datetime; a date is moved
-- day by day, and the last year is 9999.
--
-- Each class is a record of the model, and its __post_init__ is a check of the record named
-- post_init or check_ with the class's name; where the code calls a constructor, the model runs
-- that check. A method keeps its name. What raises is a result with the exception's class and
-- message (Base/Errors). Text is a list of code points, bytes are a list of numbers, and UTF-8
-- with Python's strict decoder and its incremental decoder is Base/Utf8. A float that is compared
-- with bounds is a dyadic rational, an infinity or no number (Base/Floats). A dictionary that is
-- built from a list keeps the last entry of a key (Base/Dict). Tests of type(...) are the static
-- types of the model; an integer that a negative value would make raise is a natural number, and a
-- seed is an integer (Base/Integers).
--
-- The loop of the teacher runs on fuel of one more than the tokens of the value. The digests of
-- SHA-256 over JSON, the tokenizer of the C runtime and the rendering of a source for the memory
-- encoder are parameters. Not modelled are tensors and their training, the C runtime, files and
-- processes, the summaries of scores, and the comparison of resolved queries with compiled rows.
pub mod Base
pub mod Contract
pub mod Protocol
pub mod Transport
pub mod Generation
pub mod Teacher
pub mod Controller
pub mod Dialogue
pub mod FreeReply
pub mod Uncertainty
pub mod Bundle
pub mod Schedule
pub mod Versions
pub mod Tests
