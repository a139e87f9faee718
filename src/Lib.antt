-- ===== src/Lib.antt =====
-- Bepaylot reads documents, classifies them and extracts fields from them with language models, checks
-- those fields by formulas, and answers questions in a chat. This library models the parts of it that
-- compute: the formula language of checks, the comparison of texts it uses, what a chat turn does to the
-- streamed text, to messages that arrive while it runs, to the history it is given and to a reply that is
-- cut off, the events of a turn, its calculator, the task queue within one process, how a failed model
-- call is made again, and how the pages of a file are classified and grouped into documents.
--
-- Prelude: lists, texts as lists of code points, Boolean tests, and Outcome, which is what a call of Go
--   code comes to: a value, an error, a panic, or the end of the fuel.
-- GoLibrary: what the code uses of unicode, strings, strconv, math, math/big, sort, time, fmt and
--   golang.org/x/text, as records of functions that the model takes as a parameter. Floating point
--   numbers, calendar and tables of Unicode are not modelled.
-- TextUtil (docpipe/textutil/textutil.go): Unaccent, CollapseSpace, Normalize, ContainsFold, ValueKey,
--   ValueIn, EstimateTokens, BadCharRatio (its count), Truncate; TextUtil.Distance the edit distance and
--   TextUtil.Numbers ParseNumber. ValueText and RuneLen are not modelled.
-- CheckExpr (internal/checkexpr): a formula goes from text to tokens (Lexer: lex), to a syntax tree
--   (Parser: Parse, one function per method of the recursive descent), is checked against a scope
--   (Check: Check) and evaluated to a result (Eval: Eval). Value has documents, scopes, values and
--   results, and dedupe, fmtNum and text; Operators has compare, arith and broadcast2; Functions and
--   Calls have the function table; Verdict has verdict and logic. Error texts of the parser and of Check
--   are constructors; the texts of results are those of the source. Slices are values: that append may
--   share the spare capacity of a slice is not modelled.
--   Parser.parse_expr runs on fuel that bounds the depth of brackets, and the loops of a level on fuel
--   that bounds their length; each gets the number of the tokens and one more, of which every turn uses
--   one up. The fuel of lex is one more than the number of the code points.
-- Agent.TextGuard (internal/agent/textguard.go): the guard that holds back JSON regions of the streamed
--   text until they are complete. The repair of a region is a parameter, which Agent.JsonRepair fills.
-- Agent.JsonRepair (internal/agent/jsonrepair.go): arithmetic where a JSON value belongs is replaced with
--   its number; JsonRepair.Guarded is the guard with this repair. The evaluator is a parameter. The loop
--   runs on one more than the length of the text, of which every round takes at least one.
-- Tools.Calc (internal/tools/calc.go): the calculator: Calc its parser, Arithmetic the functions, Literal
--   the numbers, Format the results and the tool, and EvalNumber, which Agent.JsonRepair takes. Package
--   math/big is a parameter, with what its documentation says of zero. Brackets nest on fuel of one more
--   than the length of the text, and the loops on fuel of the same kind; each round takes a rune.
-- Agent.Steer (internal/agent/steer.go): steerer, the inbox of a running turn, and runRegistry. Each
--   method runs under a mutex and is one step; a turn is a sequence of steps (Delivery). The address of a
--   run stands for the pointer to it, and a closed channel is an address in a list. The cancel function
--   and the interrupted flag of a run are not modelled.
-- Agent.History (internal/agent/history.go, internal/agent/json.go): stored messages as a transcript,
--   with tool calls paired with results, and its trimming to a budget. json.Marshal is a parameter.
-- Agent.Assembler (internal/agent/assembler.go): the events of a turn and the blocks that are stored of it:
--   Assembler the state, Steps the methods, with the guard of Agent.TextGuard on texts. A method runs under
--   a mutex and is one step; the emitted events are a list in the state. JSON and the rewriting of citations
--   are parameters. setCiteRefs and result are not modelled.
-- Agent.Continue (internal/agent/continue.go): a reply that hit the output limit is continued by further
--   calls. The model, the state of the context and the consumer of a stream are parameters; a stream is
--   its chunks and its end. The loops count down from maxContinuations.
-- Agent.Budget (internal/agent/budget.go): pick, which chooses the model and the transcript of each call
--   with the inbox of Agent.Steer. The counter is a number without a bound: it counts the model calls of
--   one turn. The loop that makes the calls belongs to the eino library.
-- Queue (internal/queue/inline.go, policies of internal/queue/queue.go): Enqueue and Drain of the queue
--   within one process. A step runs under the mutex, the runs of a handler are a parameter that yields, for
--   each round of Drain and each attempt, the requests it makes and its end, and two Drains do not
--   overlap. Drain counts its limit down. Register, RunLoop, timeouts and a missing dead-letter sink are
--   not modelled.
-- Llm.Retry (internal/llm/retry.go): the calls of Generate and Stream and the delays between them.
-- Docpipe.Group (docpipe/group.go): GroupByFirstPage. Docpipe.Decision (docpipe/decision/decision.go): the
--   posts of ClassifyPage, its fallbacks and its answer. The server and the decoding of its answers are
--   parameters, and the calls of a client run one after another.
-- Tests: concrete inputs, runs of the definitions on them, and the theorems applied to them.
--
-- Not modelled: database access, HTTP handlers, storage, the Redis queue, model providers, PDF rendering
--   and OCR, whose work is done by services and libraries; prompts and wire formats; the front end.
pub mod Prelude
pub mod GoLibrary
pub mod TextUtil
pub mod CheckExpr
pub mod Agent
pub mod Queue
pub mod Docpipe
pub mod Llm
pub mod Tools
pub mod Tests
