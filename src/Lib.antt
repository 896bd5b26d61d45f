-- ===== src/Lib.antt =====
-- The Dockerfile frontend: the parser of Dockerfiles (parser/), the lexer of shell words with
-- variables (parser/shell/), the typed instructions and build stages (parser/instructions/), and
-- the conversion into LLB (dockerfile2llb/), with the reader of ignore files and the options of a
-- request (builder/).
--
-- The parts, in the order of the data flow:
-- * parser/parser.go reads the lines of a file, takes the parser directives and the comments out,
--   joins continuation lines and collects here-documents. Parser/Directives, Parser/Lines,
--   Parser/Heredoc and Parser/Parse model it; Parser/Parse/Reading and Parser/Parse/Ranges are the
--   proofs about its loops. `Parse` is `parse`: the scanner is the list of the tokens that
--   `scanLines` returns (`scan_lines` makes it from a text), beside the error that it stops with.
-- * parser/split_command.go splits an instruction into its name, its builder flags and the rest:
--   SplitCommand, with the proofs in its Flags, RoundTrip and Bounds.
-- * parser/line_parsers.go makes the tree of an instruction: Parser/ParseWords for `parseWords`,
--   Parser/LineParsers for the other functions and for `newNodeFromLine`, which calls them by the
--   table `dispatch`, and itself again for ONBUILD. Parser/Ast has the tree, Parser/Error the
--   errors with their locations. Command has the table of parser/command/command.go.
-- * parser/shell/lex.go expands variables and splits words: Shell/Env for the environment,
--   Shell/Words for `wordsStruct`, Shell/Lex for names, single quotes and `processDollar`,
--   Shell/Quote for double quotes, `processStopOn` and the entry points. The scanner is the text
--   that is left of the word.
-- * parser/instructions/ turns the trees into typed commands and build stages. Instructions/Flags
--   is bflag.go (`BFlags`); Instructions/Mount is commands_runmount.go (`parseMount`), with
--   Instructions/Numbers for what it uses of strconv; Instructions/Commands has the types of
--   commands.go and Instructions/Expand its Expand methods. Of parse.go, Instructions/Request is
--   the request of a node and what the parse functions share, Instructions/Parsing has these
--   functions (ADD and COPY in Parsing/Copying, RUN, CMD and ENTRYPOINT with the hooks of RUN in
--   Parsing/Running, HEALTHCHECK in Parsing/Health), and Instructions/Stages `ParseInstruction` and
--   `Parse`. The proofs are in Flags/Assignments, Flags/Twice, Mount/Valid, Parsing/Naming,
--   Stages/Order, Stages/Lookup and, for the way of ENV and LABEL from text to pairs,
--   Instructions/Assignments.
-- * dockerfile2llb/ converts the stages into LLB. Of convert.go, Convert/Stages has the first part
--   of `Dockerfile2LLB`, from the global arguments to the check for cycles; Convert/States the
--   states of the stages (`dispatchStates`), the sources of their commands and the loop that fills
--   in the dependencies, with its proofs in States/Valid, States/Filled, States/Deps,
--   States/Later, States/Sources, States/Sourced, States/Missing, States/Outcome,
--   States/Checked, States/Names and Stages/Sound; Convert/Graph `hasCircularDependency` and
--   `isReachable`, proved in Graph/Cycles and Graph/Reaching over the ways of Graph/Ways.
--   Convert/Dispatch is `dispatch`: Dispatch/State for what changes while a stage is converted and
--   for the interface of the client library, Dispatch/Config for the commands on the configuration
--   of the image, Dispatch/Mounts for the mounts of RUN (convert_runmount.go) and Dispatch/Flags
--   for its secrets, SSH sockets, network and security (convert_secrets.go, convert_ssh.go,
--   convert_runnetwork.go, convert_runsecurity.go), Dispatch/Run for RUN, Dispatch/Copy for ADD and
--   COPY, Dispatch/Step for the `switch` and the loop of a stage, and Dispatch/Triggers for what
--   comes before them: the environment of the image and ONBUILD. The proofs are in
--   Dispatch/Effects, Dispatch/Plain, Dispatch/Rules, Dispatch/Kinds, Dispatch/Stage and
--   Dispatch/Urls.
--   Convert/Context has what is asked of the build context, with the proxies and the names of
--   images, and Convert/Target what is done with the image of a base and, at the end, with that of
--   the target. Convert/Environment (with the proof in Environment/Reading), Convert/Messages and
--   Convert/Wildcards have the functions on environments, build arguments, users, names of steps
--   and wildcards, Convert/Platform and Convert/Image the files platform.go and image.go,
--   Convert/Syntax the directives of directives.go, which choose the frontend, and Convert/Error
--   the errors.
-- * parser/dockerignore/dockerignore.go reads the patterns of an ignore file: Dockerignore, with
--   the proofs in Dockerignore/Patterns. Paths has what it and the conversion use of the package
--   path.
-- * builder/build.go and builder/caps.go read the options of a request: Builder/Options, with the
--   proof about the capabilities in Options/Caps.
--
-- Strings are lists of code points (Base/Text), where Go has UTF-8 bytes: the positions that the
-- code keeps are lengths of lists here. Text that is not UTF-8 is outside the model, and letter
-- case and digits are those of ASCII. `extractBuilderFlags`, which goes through its line byte by
-- byte, is modelled for lines with ASCII flags, and so is `parseHealthConfig`, which looks for the
-- space behind the word byte by byte. The error of a scanner at a line of more than 64 KB is the
-- `failure` of the source, beside its tokens.
--
-- Loops that Go runs on a cursor recurse on the text that is left. Where a call goes back into the
-- lexer, or into the line parser for ONBUILD, the recursion is on fuel, one more than the length of
-- the text, which is enough because each such call is on a text that is shorter (Shell/Fuel and
-- Parser/LineParsers/Fuel). `Parse` has as much fuel as there are lines. The search for cycles has
-- one more than there are states, since each call marks one that was not visited (Graph/Cycles);
-- `isReachable` keeps no such marks, and has fuel as an argument.
--
-- Code that is not modelled as functions is a parameter: the JSON decoder (`decode`, which gives
-- the elements of an array with `none` for one that is not a string), the CSV reader, durations,
-- sizes and `container.MinimumDuration` (the record `Other` of Instructions/Stages). The build tags
-- dfheredoc and dfrunsecurity are the parameters `enabled` and `sandboxed`. The client library is
-- the record `Llb` of Dispatch/State, with a state as an unknown type; a `dispatchState` is its
-- place in a heap. Named contexts and the parser of platforms are parameters of Convert/Stages
-- (`Setting`). Regular expressions are written out as functions. A Go map is a list: of pairs for
-- an environment, of flags in the order of their declaration for `BFlags`. Errors are values of
-- Parser/Error and Convert/Error with the arguments of their messages; the hints that the package
-- suggest adds are not worked out.
--
-- Where the code shares a map or a slice between images, the model has values: a label that one
-- stage writes into the map of its base is not seen there, and an entry that it appends to the
-- history is its own.
--
-- Not modelled: printing (`Dump`, `PrintWarnings`, the dumper); in dockerfile2llb/convert.go the
-- loop over the stages that the target needs and the look-up of base images in a registry, which
-- the stages wait for; the client library itself; the gateway client with the requests of builder/
-- and cmd/; the examples and vendored code.
pub mod Base
pub mod Paths
pub mod Dockerignore
pub mod SplitCommand
pub mod Shell
pub mod Command
pub mod Parser
pub mod Instructions
pub mod Convert
pub mod Builder
mod Examples
