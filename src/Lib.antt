-- ===== src/Lib.antt =====
-- A model of go-research, a service that answers a question by a pipeline of language-model agents, and
-- the theorems about it.
--
-- A request (internal/server/handler_research.go) starts Engine.Run of internal/agent/orchestrator: the
-- planner asks a model for a plan of subtasks, the scheduler of internal/agent/dag runs one researcher a
-- subtask in the order of their dependencies, a researcher searches, writes and lets the critic judge,
-- and the writer streams the report. The events of the run go to the client, and to a recorder that
-- stores them in PostgreSQL.
--
-- Prelude: shared names; tests on the native numbers, lists, strings as lists of bytes, Go maps as
-- association lists (Prelude/Maps), and Go's int as an integer without bounds (Prelude/Int);
-- where 1 + MaxRetry and 1 + MaxCriticRetries wrap around, the definitions say so.
-- Text: what the code uses of package strings, `truncate` and `oneLine`; Text/Decimal is the digits of %d
-- and strconv.Atoi; Text/Extract is internal/agent/jsonutil/extract.go (ExtractObject) and extractJSON of
-- the planner.
-- Llm: the messages of internal/llm/client.go. A model is a function of the messages and a state of the
-- world, which gives a reply or an error.
-- Dag/Types and Dag/Graph: internal/agent/dag/types.go and graph.go. A graph is the map of nodes and the
-- slice of their IDs; Add, Validate and the depth-first search of detectCycle, whose explicit stack and
-- colours are the arguments of `dfs`. Its fuel is 2 * edges + 2 rounds for a root: each node is pushed at
-- most once for each edge to it, and popped at most twice, and the search is proved to return.
-- Dag/Backoff and Dag/Worker: the backoff, the options and `execute` with its retry loop, of
-- scheduler.go. What the context, the limiter, Run and the clock answer to an attempt is an environment
-- by the attempt's number; the loop's fuel is the number of rounds of the loop in the source. The shift
-- of the backoff wraps around at 64 bits.
-- Dag/Coordinator: `Run` and `worker` of scheduler.go. A System is the locals of Run with the two
-- channels as queues, the tasks that workers have taken, and the error of runCtx. A Step is a worker that
-- takes a task or is done with it (with the message of Dag/Worker's `execute`, in any environment), a
-- turn of the loop that receives a message, or the context being done; a run is any sequence of them.
-- Where the source selects between a send and runCtx.Done(), `sends` says which; it drops a task only if
-- the context is done. Entry is Run up to its loop, and Once counts what a
-- whole run has done. The invariant is in Invariant, with the proofs of the
-- parts of a step beside it; Safety, Liveness and Termination are what follows.
-- Tool: the registry of internal/tool/tool.go. Tool/Cached is internal/tool/search/cached.go on
-- internal/cache/redis/cache.go, with its buildKey, for several tools on one cache; Tool/Mock is the itoa of internal/tool/search/mock.go, whose buffer of 20
-- bytes is its fuel, and Mock/Search its Call; Tool/Tavily is internal/tool/search/tavily.go.
-- Planner: internal/agent/planner/planner.go (Plan, askOnce, validate).
-- Critic: internal/agent/critic/critic.go (Review, parseReview).
-- Researcher: internal/agent/researcher. Options is options.go; Dedup and Collect are the search rounds
-- of react.go, whose fuel is MaxSearchRounds; Attempts is Research of researcher.go with synthesize,
-- whose fuel is 1 + MaxCriticRetries. What the hook is told is a log.
-- Writer: internal/agent/writer/writer.go (Stream, buildPrompt). A stream is its chunks and its end.
-- Orchestrator: the events of internal/agent/orchestrator/orchestrator.go, and the loop of Run that makes
-- a graph of the plan. Orchestrator/Engine is Run: the stages with the events that they send as a log,
-- where what the scheduler and the researchers tell meanwhile is a list in the order of receipt.
-- Engine/Closure is the work of a node, and Engine/Composed puts it under the scheduler of
-- Dag/Coordinator. Engine/Wired is about the errors for parts that are missing.
-- Store: the statements of internal/store/postgres/research.go on two tables, with a parameter that says
-- which statements fail. Store/Queries is ListSessions and GetSession, with ORDER BY as an insertion sort
-- (Store/Ordered) of the rows as each query comes to them; Store/Open is Open and migrate of internal/store/postgres/postgres.go, where the fuel of
-- the loop of pings is the number of attempts. Recorder: internal/server/research_recorder.go on top of
-- the store; Recorder/Readback reads with GetSession what it has written.
-- Limiter: internal/ratelimit/limiter.go, with the slots of the channel as a number.
-- Config: internal/config/config.go.
-- Server: requireAPIKey of internal/server/middleware.go and buildMessages of handler_chat.go.
-- Server/Research is handleResearch of handler_research.go, with any pipeline (Research/Served) and with
-- Engine.Run as its pipeline (Research/Completed); Server/History is handler_history.go, with
-- History/Remembered, a research followed by a look at it, and History/Paged, a walk through the pages;
-- Server/Chat is handleChat; Server/Routes is routes.go and handler_health.go.
-- Main: cmd/server/main.go, how the parts are made and put together.
-- Each Samples module holds runs on concrete input.
--
-- Parameters stand for code outside the repository: json.Marshal and json.Unmarshal into the types of
-- the source, SHA-256, the model, the search tool, the token bucket. The fixed texts of the system prompts are
-- parameters too. Errors are values with what their text is made of; they are not formatted.
--
-- The writes to a client, and the statements of the database, fail at any points that a function of their
-- number says.
--
-- Not modelled: the HTTP framework and the bytes of SSE, logging, the clients of the model, of Redis and of
-- PostgreSQL, what a cancelled context does inside them, cmd/tavily-smoke, and the web client.
pub mod Prelude
pub mod Text
pub mod Llm
pub mod Dag
pub mod Tool
pub mod Planner
pub mod Critic
pub mod Researcher
pub mod Writer
pub mod Orchestrator
pub mod Store
pub mod Recorder
pub mod Limiter
pub mod Config
pub mod Server
pub mod Main
