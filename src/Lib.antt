-- ===== src/Lib.antt =====
-- ESPv2: the data plane of a service proxy, written as filters of Envoy.
--
-- The program has a library without Envoy (src/api_proxy) and the filters that use it (src/envoy).
-- A request passes the path matcher filter, which asks the path matcher for the operation, and the
-- service control filter, whose handler finds the requirement of the operation, extracts the api
-- key, asks the service control server (a check, then a quota call), lets the request go on or
-- refuses it, and reports. The calls pass the service control call, where a request builder fills
-- the requests and reads the responses, and the client cache, which sends them by HTTP calls with
-- retries. Their tokens are refreshed by a token subscriber. What is reported follows the service
-- configuration, which the logs and metrics loader reads. The backend routing filter rewrites the
-- path, and the backend auth filter puts a token for the backend into the headers.
--
-- Base and its children hold what the others share: tests on numbers, lists, maps, integers.
--
-- PathMatcher: src/api_proxy/path_matcher.
--   TemplateParser and HttpTemplate: http_template.{h,cc}. One function per method of Parser
--     (ParseSegments is parse_segments, and so on); Parsed is a result, a failure, or the end of
--     the fuel. Loops and the recursion of segments run on fuel taken from the length of the
--     input: each round consumes a character. HttpTemplate.Cursor and HttpTemplate.Total are about
--     that fuel, HttpTemplate.Valid about ValidateParts.
--   Node: path_matcher_node.{h,cc}. The trie as a data type with its children in a second one;
--     InsertTemplate is insert_template, LookupPath is lookup_path with the result variable passed
--     on. Node.Insert sees the trie as a table, Node.Matching says what a template matches,
--     Node.Lookup and Node.Complete are about the search.
--   RequestPath: the free functions of path_matcher.cc, and variable_binding_utils.cc. Strings are
--     lists of bytes. absl::StrSplit is the record StrSplit: its parts, joined, are the text, and
--     none contains the delimiter.
--   Matcher: path_matcher.h. Register, Build and Lookup; a null pointer is none. Matcher.Registered
--     and Matcher.Lookup speak of a list of registrations.
--   Filter: src/envoy/http/path_matcher/filter.cc and filter_config.{h,cc}, the filter above the
--     matcher; Filter.Routes is about its rules.
--
-- Token: src/envoy/token.
--   Subscriber: token_subscriber.{h,cc}. The state is the active request, the timer and a log of
--     what the subscriber does to others. The client and the timer act by Step. A TokenInfo is a
--     record of its parsers, which Info fills. Alive and Handled are about the states and responses.
--   Json: src/envoy/utils/json_struct.cc. Doubles are a record of what the code asks of them.
--   Info: iam_token_info.cc and imds_token_info.cc, which are TokenInfos; JSON and times are
--     parameters. Expiry and Identity are about the subscribers that use them.
--   Auth: src/api_proxy/auth/auth_token.cc and json_util.cc. gRPC and OpenSSL are the record Grpc;
--     Signed is about the tokens.
--
-- ServiceControl: src/envoy/http/service_control.
--   HttpCall: http_call.cc. makeOneCall and attemptRetry call one another: make_one_call_on has
--     one unit of fuel for each retry that is left and one more. Env says what each request meets.
--   Info: src/api_proxy/service_control/request_info.h.
--   HandlerUtils and ApiKey: handler_utils.cc and src/envoy/utils/http_header_utils.cc, over records
--     of Envoy's answers on the headers, the stream and the metadata.
--   Config: config_parser.{h,cc}. An exception of the constructor is a ConfigError.
--   Handler and Report: handler_impl.{h,cc}. Sizes wrap around at 64 bits; times are nanoseconds.
--   Filter: filter.{h,cc}, with callCheck, callQuota and onCheckResponse of handler_impl.cc. The
--     client's answers come inside the call or later, by Step. Filter.Lifecycle has the other
--     callbacks; Filter.FirstToLast is about the order of the reports, Filter.Keyless about their
--     api keys. Status::ToString, the text of a refusal, is a parameter.
--   RequestBuilder: src/api_proxy/service_control/request_builder.cc. Proto has the messages by the
--     fields that are set; Metrics and Table, Labels and LabelTable the supported metrics and labels
--     with the functions that set them; Logs, Builder, Fill and Convert the class. A distribution is
--     an opaque type with DistributionHelper; Base64 and the version are Externals. Names,
--     Labelled, Metered, Operations, Unkeyed and Shape are about the reports, Checked and Requests
--     about the rest.
--   LogsMetrics: src/api_proxy/service_control/logs_metrics_loader.cc.
--   ClientCache: client_cache.cc. The aggregating client of another library is CheckClient: for a
--     check that is not in its cache, it hands the status and the response of the transport on.
--   Call: service_control_call_impl.{h,cc}. Deliveries of tokens are events, threads a list.
--   Refused: from the server's response to the reports, through Filter, Report and RequestBuilder.
--
-- BackendRouting: src/envoy/http/backend_routing/filter.cc and filter_config.h, a filter that gives
--   the backend its path. Each branch of decodeHeaders is a function.
--
-- BackendAuth: src/envoy/http/backend_auth, a filter that puts the token for the audience of the
--   operation into the request. config_parser_impl.cc is Rules (its maps) and Delivered (the tokens
--   of the threads); Authorized is about filter.cc. Deliveries of tokens are events.
--
-- Not modelled: the parsing of protocol buffers, JSON and HTTP, which is other libraries'; the
-- cryptography; the construction of timers, subscribers and generators; logging and tracing tags;
-- the registration of the filters with Envoy; and the Go programs that generate the configuration
-- of the proxy. The cache of the client library is not in the repository. Report intervals of 2^63
-- milliseconds and more are outside of the model.
pub mod Base
pub mod PathMatcher
pub mod BackendRouting
pub mod BackendAuth
pub mod Token
pub mod ServiceControl
