-- ===== src/Lib.antt =====
-- A model of parts of the NATS command line tool, with proofs.
--
-- The tool is a tree of commands (cli/) around helpers (internal/util, internal/bench). The
-- commands declare their positional arguments and flags, which are validated before they run;
-- publish builds messages from its arguments or standard input and sends them by one of three
-- loops; subscribe counts what arrives and matches replies with requests; the benchmark divides
-- its messages among clients and publishes each client's share in batches; and reports pass host
-- names, versions, sizes and subjects through the helpers. The stream and consumer commands make,
-- edit and copy configurations from flags, files and questions on the terminal.
--
--   * Prelude: shared names, tests on numbers, lists, integers, and texts as lists of codes.
--   * Util: of internal/util/util.go, Util.Hostnames is CompactStrings, Util.ByteSize is
--     ParseStringAsBytes, Util.Version is versionComponents and VersionIsAtLeast, Util.Groups is
--     SliceGroups, and Util.Subjects is SplitString and SplitCLISubjects; Util.Backoff is
--     internal/util/backoff.go. Util.Decimal is what they use of strconv.
--   * Cobra: Cobra.Args is cli/cobra_args.go, where the declared arguments are a list of ArgMeta
--     that register_arg extends, validate_args is the validator and complete_arg the completion.
--     Cobra.Values is the Set methods of cli/cobra_values.go with internal/util/validators.go:
--     each takes the flag's value and returns its new value and the error.
--   * Bench: of cli/bench_command.go, Bench.Settings is processActionArgs and the subjects,
--     Bench.Setup what jspubActions sets up, Bench.Clients is msgsPerClient and offset,
--     Bench.Batches and Bench.FastBatch are jsPublisher's loops, and Bench.Loops those of
--     coreNATSPublisher, coreNATSRequester and kvPutter. Bench.Stats is internal/bench/stats.go,
--     where close folds add_sample over the clients' samples.
--   * Duration: parseDuration of cli/cobra_helpers.go and HumanizeDuration of
--     columns/columns.go.
--   * Headers: DecodeHeadersMsg and readMIMEHeader of internal/util/headers.go.
--   * Publish: cli/pub_command.go. Publish.Message is the messages and headers that
--     internal/util/headers.go and internal/util/publisher.go build, Publish.Stdin is ReadStdin,
--     Publish.Atomic is addToBatch, publishAtomicBatch and writeAtomic, Publish.Loops is
--     doJetstream, publishJetstream and publishNatsMsg, Publish.Schedule is the schedule's flags
--     and headers, and Publish.Action is publishAction, which chooses the loop.
--   * Subscribe: of cli/sub_command.go, Subscribe.Handlers is what createMsgHandler,
--     createMatchHandler and handleInArrivalOrder do to subscriptionState: each is a function on
--     State, and Limit.Step is the relation of what may arrive next; Subscribe.Inputs is
--     validateInputs and makeConsumerConfig, and Subscribe.JetStream the handler of a stream's messages.
--   * Dialog: the questions of cli/util.go, over a terminal that holds the answers that are left. A
--     part of a command is a Dialog, which gives a result or why the command ends, and the terminal.
--   * Streams: of cli/stream_command.go, Streams.Names is the policies' names, Streams.Sizes is
--     parseLimitStrings, Streams.Edit is copyAndEditStream, Streams.Create is prepareConfig, whose
--     sections are a function each, Streams.Sources is askMirror, askSource and parseStreamSource,
--     and Streams.Commands is what addAction, editAction and cpAction decide. StreamConfig groups
--     the fields of api.StreamConfig, StreamCmd those of streamCmd.
--   * Consumers: of cli/consumer_command.go, Consumers.Names is the policies' names, setStartPolicy,
--     backoffPolicy and parsePauseUntil, Consumers.Edit is copyAndEditConsumer, Consumers.Copy the
--     configuration that cpAction makes, Consumers.Create is prepareConfig and askBackoffPolicy,
--     Consumers.Level is checkConfigLevel, and Consumers.Commands is what createAction and editAction
--     decide.
--   * Select: selectStream and selectConsumer of cli/util.go.
--   * Columns: the rows of columns/columns.go and renderHuman, which draws them; Columns.Documents is
--     renderJSON and renderMarkdown.
--   * Checks: Checks.Replicas is what the two checks share, Checks.Streams is
--     cli/server_stream_check.go and Checks.Consumers is cli/server_consumer_check.go: `collect`
--     and `collect_responses` group what the servers report, and one round of the loop over the
--     replicas is a function into an Outcome, which is a row, no row, or the panic of a nil
--     pointer.
--
-- A 64-bit product keeps its wrap-around. Loops whose end is not structural run on fuel: the loops
-- over batches have one round for each message and one more, each round advancing by one message
-- at least, as long as the batch size is not 0. The loops of publish over standard input have one
-- round for each piece of a line that the reader gives and one more. The loop of
-- BackoffPolicy.For, which need not end, has as many rounds as it is given.
--
-- A loop of questions ends with the answers that are left.
--
-- Not modelled: the network, the server, how the terminal is read and coloured, floating-point statistics, and the commands
-- that pass a request on and print the answer. What the file system and the parsers of URLs and
-- regular expressions, text/template, the reader of standard input and the client libraries answer
-- is a parameter, and so is the time.
pub mod Bench
pub mod Checks
pub mod Cobra
pub mod Columns
pub mod Consumers
pub mod Dialog
pub mod Duration
pub mod Headers
pub mod Prelude
pub mod Publish
pub mod Select
pub mod Streams
pub mod Subscribe
pub mod Util
