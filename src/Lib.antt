-- ===== src/Lib.antt =====
-- Exam console, board agent and SEB settings: a model of exam-env in this repository.
--
-- An instructor signs in to a server, keeps exams there, and starts and stops Safe Exam Browser on
-- boards. Each board runs an agent that sends heartbeats; the reply may carry a job. An exam is sent
-- as a settings file whose Config Key a gate on the server checks when the browser opens the exam.
--
-- Which file models which part:
--   Proto      exam-env/proto/src/lib.rs: heartbeats, replies, job kinds, payloads
--   Seb        exam-env/proto/src/seb.rs: url_host, normalize_domain, parse_domain_list,
--              effective_domains, seb_config
--   SebFile    exam-env/proto/src/seb_file.rs: exam_settings (Settings), seb_json (Json), config_key
--              and verify_config_key_hash (Keys), hex (Hex), the container (Container); Values has
--              the property list values and Ext, the functions of other crates
--   Fleet      exam-env/server/src/backend/fleet.rs and the view types of server/src/model.rs: the
--              records (Model), log (Log), exams (Exams), heartbeat (Beat for one board's live part,
--              Heartbeat for the fleet), tick (Tick), enqueue (Enqueue), rename, forget, snapshot
--              and from_snapshot (Admin), the views (Views); Invariant has the calls as one type
--   Auth       exam-env/server/src/backend/auth.rs: digests and the agent token (Digests), the rate
--              limit (Limiter), login, sessions, logout (Sessions), cookies and Origin (Origin)
--   Server     exam-env/server/src/backend/mod.rs (State), http.rs (Http, Guard, Boards, Gate,
--              Login) and app/api.rs (Api): each handler takes the state and gives the new state and
--              the response
--              The file of the server's state, backend/store.rs, is Store, on a disk that is a map
--              from paths to files; Store/Start has App::new with it and the last save of main.rs
--   Agent      exam-env/seb-agent/src/main.rs (Loop) and stats.rs (Stats)
--   Sim        exam-env/sim-agent/src/main.rs: Rng (Rng), parse_args (Options), Board with its step,
--              heartbeat and handle (Board), the loop of run by turns (Round)
--   Console    exam-env/server/src/app: what the pages keep and compute. ui.rs has the times (Time),
--              the two-click button and polling (Widgets); fleet.rs the selection and the order of the
--              boards (Fleet); exams.rs the form and its preview (Form); board.rs the page of a board
--              (Board); activity.rs the page of the log with its requests under way (Activity); Texts
--              has the texts and links
--   Base       text, lists, results, numbers and ordered maps that the parts share
--   Tests      the results at concrete inputs
--
-- State is passed explicitly: a method on `&mut self` takes the state and gives the new one with its
-- result. A mutex is held for one whole call, so a history of the server is a list of calls; App::save,
-- which gives the lock back while it writes, is one step of the model too. A
-- method's guards and early returns are tests in the same order. Text is a list of code points, and
-- its UTF-8 form where bytes are counted or hashed. An instant is a number of nanoseconds and
-- `duration_since` stops at zero. Event and job ids wrap at 2^64. A float is its bit pattern.
--
-- Time, randomness, processes, the network and the outcome of file system calls are arguments. The
-- functions of other crates are the fields of Ext; the container's round trip relies on the laws in
-- SebFile.Container.RoundTrip.IsCodec, which the tests' functions satisfy. serde_json is Serde, the
-- operations on floats are Floats and Floats32. The console counts instants from 1970 on, so that its
-- Euclidean divisions are those of the natural numbers.
--
-- Fuel: normalize_domain and url_host call one another, on fuel 2, which is enough for every input;
-- decimal has fuel for more digits than its number has.
--
-- Not modelled: the markup of the console's pages and the table of routes, which only call a
-- framework; the entry points of the server; from_xml, a call of the plist crate, and ip(), a call
-- of the network; printing to the console.
mod Base
pub mod Proto
pub mod Seb
pub mod SebFile
pub mod Fleet
pub mod Auth
pub mod Server
pub mod Agent
pub mod Sim
pub mod Console
mod Tests
