-- ===== src/Lib.antt =====
-- prd2tsd turns product requirement documents into technical specifications. A request becomes a
-- task (app/task_manager.py), which runs the orchestrator's graph (app/orchestrator/main_graph.py):
-- an input is classified, and answered at once or taken through knowledge retrieval, analysis,
-- planning, generation and evaluation, with reviews by people in between and a loop back while the
-- evaluation is not good enough. The layers call language models through the gateway
-- (app/llm_gateway), which reserves tokens with a rate limiter, follows a chain of providers and
-- guards each provider with a circuit breaker. Progress goes to the browser over an event bus.
--
-- The parts and their files:
--   Breaker.antt, Breaker/: app/core/circuit_breaker.py. `admit` is the locked section at the start of
--     `CircuitBreaker.call`, `on_success` and `on_failure` the ones at its end, `call` the whole.
--     Breaker/Reach interleaves the calls of many tasks, cancelled ones included; Breaker/Registry is
--     `CircuitBreakerManager`, and the gateway's `_ensure_circuit_breaker`.
--   RateLimiter.antt, RateLimiter/: app/llm_gateway/rate_limiter.py, one function per method;
--     `commit` is the second half of `reserve`.
--   Failover.antt, Failover/: app/llm_gateway/failover.py, and `_configure_route_failover`,
--     `_failover_call` and `_apply_budget_downgrade` of app/llm_gateway/__init__.py, over the breakers.
--   Gateway.antt, Gateway/: one call of `LLMGateway.complete` of app/llm_gateway/__init__.py from its
--     start to its end, over the rate limiter, the failover and the breakers.
--   Budget.antt, Budget/: `BudgetController` of app/llm_gateway/budget_controller.py; whether the database
--     answers is an input of each call, and the start of a calendar month a function of the clock.
--   SemanticCache.antt, SemanticCache/: app/llm_gateway/cache.py, the exact first level; with the
--     stored embeddings of SemanticCache/Levels the whole of it.
--   Orchestrator.antt, Orchestrator/: app/orchestrator/state.py, iteration.py, routing.py,
--     human_review.py and nodes/intent_classify.py; Orchestrator/Graph is `build_orchestrator_graph`
--     of main_graph.py: `run_node` is what a node writes, `next_node` the edge that leaves it.
--   Evaluation.antt, Evaluation/: app/evaluation/scoring.py, score_calibrator.py, score_history.py,
--     the fan-out of agent_graph.py and the reducer of models.py. Its report is the one that
--     `IterationDecider.run` reads.
--   TaskManager.antt, TaskManager/: app/task_manager.py; TaskManager/Store is
--     app/task_manager_store.py, TaskManager/Work the coroutines `_execute_task` and `_resume_task`,
--     TaskManager/Reach the sequences of requests, whole coroutines, restarts and outages, and
--     TaskManager/Segments the same methods cut at the lock and at the writes of the rows, in every
--     interleaving; TaskManager/Refines puts the coroutines of the two side by side.
--   Guardrails.antt, Guardrails/: app/llm_gateway/guardrails; Guardrails/Patterns has the guardrails
--     that search a text, and `_guard_input` and `_guard_output` of app/llm_gateway/__init__.py, whose
--     outcomes `Gateway.complete` takes as inputs.
--   Documents.antt, Documents/: app/document_management/service.py over repository.py and storage.py;
--     `upload` is `store_document` after the search for the hash, and Documents/Race puts another
--     upload between the two.
--   Batch.antt, Batch/: `BatchTaskService` of app/batch/tasks.py; Batch/Jobs has its cleanup and
--     indexing jobs, over app/session_history/cleanup.py and the repositories, in database sessions
--     that are rolled back at their end; Batch/Sync is `WebSyncScheduler` of app/web_indexing/web_sync.py
--     and its job.
--   Webhooks.antt, Webhooks/: `IntegrationHub` of app/integrations/webhook.py, and the notification of
--     app/orchestrator/main_graph.py.
--   Auth.antt, Auth/: app/auth, and the order in which app/main.py adds its middlewares.
--   Fusion.antt, Fusion/: app/knowledge_layer/retrieval/fusion.py.
--   Sessions.antt, Sessions/: app/session_history/repository.py, its sessions and messages.
--   Compressor.antt, Compressor/: app/session_history/compressor.py.
--   EventBus.antt, EventBus/: app/streaming/event_bus.py.
--   Prelude.antt, Prelude/: numbers, tests, lists and `dict`.
--
-- Modelling. Stateful code is a function from the state and its inputs to the new state; a raised
-- exception is a value. What the clock, uuid4, the language models, the database and the reviewers
-- answer are inputs. A section under a lock, and code between two awaits, is one step. A coroutine
-- of the task manager is one step in TaskManager/Reach, where nothing comes between the change in
-- memory and the write of the row, and several in TaskManager/Segments, which leaves the events out.
-- The items of the graph's stream are inputs, with the keys that they carry. Times are clock ticks. Scores are exact decimals: hundredths of a point for a dimension and tenths for an overall
-- score, rounded half to even like `round`; the binary error of floats is left out. Progress is in
-- percent. Costs are whole billionths or millionths of a dollar, which the columns of the tables
-- round; a ratio of cost and budget is the exact fraction. Functions recurse on lists; the number of
-- steps of `Orchestrator.Graph.run` is an argument, and `Compressor.shorten` halves a text with one
-- more unit of fuel than the text is long, which the halving never uses up. An exception that a layer
-- raises ends a run of the graph, and is the ending `raised` of the task manager's stream.
--
-- Not modelled: the prompts and the texts of the layers (app/analysis_layer, app/planning_layer,
-- app/generation_layer), the searches and the ingestion (app/knowledge_layer), masking and audits
-- (app/security), previews and the text search of documents (app/document_management), the search
-- and export of sessions (app/session_history), the crawler (app/web_indexing), metrics and traces,
-- the HTTP routes (app/api), the tables (app/models, alembic), and of app/llm_gateway the provider
-- clients and the streamed, embedding, rerank and vision calls. They are storage, transport or
-- text, or stand for later work.
pub mod Prelude
pub mod Breaker
pub mod RateLimiter
pub mod Orchestrator
pub mod TaskManager
pub mod Evaluation
pub mod Failover
pub mod EventBus
pub mod Gateway
pub mod SemanticCache
pub mod Compressor
pub mod Documents
pub mod Guardrails
pub mod Webhooks
pub mod Budget
pub mod Batch
pub mod Sessions
pub mod Auth
pub mod Fusion
