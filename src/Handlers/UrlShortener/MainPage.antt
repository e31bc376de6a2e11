-- ===== src/Handlers/UrlShortener/MainPage.antt =====
-- src/handlers/url_shortener_handler.cc: the text of the main page.
use bit_link.Prelude.{◌++◌, [], ◌∷◌}
use bit_link.Str.{Bytes}
use bit_link.Handlers.UrlShortener.Text.{text}

unfoldable pub main_page_body : Bytes
main_page_body = text (
    "" ∷ "<!DOCTYPE html>" ∷ "<html lang=\"en\">" ∷ "<head>" ∷ "    <meta charset=\"UTF-8\">"
    ∷ "    <meta name=\"viewport\" content=\"width=device-width, initial-scale=1.0\">"
    ∷ "    <title>URL Shortener & File Sharing</title>" ∷ "    <style>"
    ∷ "        body { font-family: Arial, sans-serif; max-width: 800px; margin: 0 auto; padding: 20px; }"
    ∷ "        .section { margin: 30px 0; padding: 20px; border: 1px solid #ccc; border-radius: 8px; }"
    ∷ "        input[type=\"url\"], input[type=\"file\"] { width: 70%; padding: 10px; margin: 10px 0; }"
    ∷ "        button { padding: 10px 20px; background: #007bff; color: white; border: none; border-radius: 4px; cursor: pointer; }"
    ∷ "        button:hover { background: #0056b3; }"
    ∷ "        .result { margin: 20px 0; padding: 15px; background: #f8f9fa; border-radius: 4px; }"
    ∷ "        .qr-code { margin: 10px 0; }"
    ∷ "        .copy-btn { background: #28a745; margin-left: 10px; }"
    ∷ "        .copy-btn:hover { background: #1e7e34; }" ∷ "    </style>" ∷ "</head>" ∷ "<body>"
    ∷ "    <div class=\"container\">" ∷ "        <h1>URL Shortener & File Sharing</h1>" ∷ "        "
    ∷ "        <!-- URL Shortening Form -->" ∷ "        <div class=\"section\">"
    ∷ "            <h2>Shorten URL</h2>" ∷ "            <form id=\"url-form\">"
    ∷ "                <input type=\"url\" id=\"url-input\" placeholder=\"Enter URL to shorten\" required>"
    ∷ "                <button type=\"submit\">Shorten</button>" ∷ "            </form>"
    ∷ "            <div id=\"url-result\" class=\"result\" style=\"display:none;\"></div>"
    ∷ "        </div>" ∷ "        " ∷ "        <!-- File Upload Form -->"
    ∷ "        <div class=\"section\">" ∷ "            <h2>Upload File</h2>"
    ∷ "            <form id=\"file-form\">"
    ∷ "                <input type=\"file\" id=\"file-input\" required>"
    ∷ "                <button type=\"submit\">Upload</button>" ∷ "            </form>"
    ∷ "            <div id=\"file-result\" class=\"result\" style=\"display:none;\"></div>"
    ∷ "        </div>" ∷ "    </div>" ∷ "    " ∷ [])

unfoldable pub main_page_forms : Bytes
main_page_forms = text (
    "    <script>"
    ∷ "        document.getElementById('url-form').addEventListener('submit', async function(e) {"
    ∷ "            e.preventDefault();"
    ∷ "            const url = document.getElementById('url-input').value;"
    ∷ "            const response = await fetch('/shorten', {" ∷ "                method: 'POST',"
    ∷ "                headers: { 'Content-Type': 'application/x-www-form-urlencoded' },"
    ∷ "                body: 'url=' + encodeURIComponent(url)" ∷ "            });"
    ∷ "            const result = await response.json();"
    ∷ "            const resultDiv = document.getElementById('url-result');"
    ∷ "            if (result.success) {" ∷ "                resultDiv.innerHTML = "
    ∷ "                    '<p><strong>Short URL:</strong> <a href=\"' + result.short_url + '\" target=\"_blank\">' + result.short_url + '</a> ' +"
    ∷ "                    '<button class=\"copy-btn\" onclick=\"copyToClipboard(\\'' + result.short_url + '\\')\">Copy</button></p>' +"
    ∷ "                    (result.qr_code ? '<div class=\"qr-code\"><img src=\"' + result.qr_code + '\" alt=\"QR Code\"></div>' : '');"
    ∷ "            } else {"
    ∷ "                resultDiv.innerHTML = '<p style=\"color:red;\">Error: ' + (result.error_message || 'Unknown error') + '</p>';"
    ∷ "            }" ∷ "            resultDiv.style.display = 'block';" ∷ "        });" ∷ ""
    ∷ "        document.getElementById('file-form').addEventListener('submit', async function(e) {"
    ∷ "            e.preventDefault();" ∷ "            const formData = new FormData();"
    ∷ "            formData.append('file', document.getElementById('file-input').files[0]);"
    ∷ "            const response = await fetch('/upload', {" ∷ "                method: 'POST',"
    ∷ "                body: formData" ∷ "            });"
    ∷ "            const result = await response.json();"
    ∷ "            const resultDiv = document.getElementById('file-result');"
    ∷ "            if (result.success) {" ∷ "                resultDiv.innerHTML = "
    ∷ "                    '<p><strong>Download URL:</strong> <a href=\"' + result.short_url + '\" target=\"_blank\">' + result.short_url + '</a> ' +"
    ∷ "                    '<button class=\"copy-btn\" onclick=\"copyToClipboard(\\'' + result.short_url + '\\')\">Copy</button></p>' +"
    ∷ "                    '<p><strong>Filename:</strong> ' + result.filename + '</p>' +"
    ∷ "                    (result.qr_code ? '<div class=\"qr-code\"><img src=\"' + result.qr_code + '\" alt=\"QR Code\"></div>' : '');"
    ∷ "            } else {"
    ∷ "                resultDiv.innerHTML = '<p style=\"color:red;\">Error: ' + (result.error_message || 'Unknown error') + '</p>';"
    ∷ "            }" ∷ "            resultDiv.style.display = 'block';" ∷ "        });" ∷ ""
    ∷ "        function copyToClipboard(text) {"
    ∷ "            // First try the modern Clipboard API"
    ∷ "            if (navigator.clipboard && window.isSecureContext) {"
    ∷ "                navigator.clipboard.writeText(text).then(function() {"
    ∷ "                    showCopySuccess();" ∷ "                }).catch(function(err) {"
    ∷ "                    console.error('Clipboard API failed, trying fallback:', err);"
    ∷ "                    fallbackCopyTextToClipboard(text);" ∷ "                });"
    ∷ "            } else {"
    ∷ "                // Fallback for older browsers or non-secure contexts"
    ∷ "                fallbackCopyTextToClipboard(text);" ∷ "            }" ∷ "        }" ∷ ""
    ∷ [])

unfoldable pub main_page_copy : Bytes
main_page_copy = text (
    "        function fallbackCopyTextToClipboard(text) {"
    ∷ "            // Create a temporary textarea element"
    ∷ "            const textArea = document.createElement(\"textarea\");"
    ∷ "            textArea.value = text;" ∷ "            " ∷ "            // Make it invisible"
    ∷ "            textArea.style.position = \"fixed\";"
    ∷ "            textArea.style.left = \"-999999px\";"
    ∷ "            textArea.style.top = \"-999999px\";" ∷ "            "
    ∷ "            document.body.appendChild(textArea);" ∷ "            textArea.focus();"
    ∷ "            textArea.select();" ∷ "            " ∷ "            try {"
    ∷ "                const successful = document.execCommand('copy');"
    ∷ "                if (successful) {" ∷ "                    showCopySuccess();"
    ∷ "                } else {" ∷ "                    showCopyError();" ∷ "                }"
    ∷ "            } catch (err) {" ∷ "                console.error('Fallback copy failed:', err);"
    ∷ "                showCopyError();" ∷ "            }" ∷ "            "
    ∷ "            document.body.removeChild(textArea);" ∷ "        }" ∷ ""
    ∷ "        function showCopySuccess() {" ∷ "            // Create a temporary success message"
    ∷ "            const message = document.createElement('div');"
    ∷ "            message.textContent = 'Copied to clipboard!';"
    ∷ "            message.style.cssText = `" ∷ "                position: fixed;"
    ∷ "                top: 20px;" ∷ "                right: 20px;"
    ∷ "                background: #28a745;" ∷ "                color: white;"
    ∷ "                padding: 10px 20px;" ∷ "                border-radius: 4px;"
    ∷ "                z-index: 1000;" ∷ "                font-family: Arial, sans-serif;"
    ∷ "            `;" ∷ "            document.body.appendChild(message);" ∷ "            "
    ∷ "            setTimeout(() => {" ∷ "                document.body.removeChild(message);"
    ∷ "            }, 2000);" ∷ "        }" ∷ "" ∷ "        function showCopyError() {"
    ∷ "            // Create a temporary error message with manual copy instruction"
    ∷ "            const message = document.createElement('div');"
    ∷ "            message.innerHTML = `"
    ∷ "                <div>Failed to copy automatically.</div>"
    ∷ "                <div style=\"font-size: 12px; margin-top: 5px;\">Please select and copy the link manually.</div>"
    ∷ "            `;" ∷ "            message.style.cssText = `"
    ∷ "                position: fixed;" ∷ "                top: 20px;"
    ∷ "                right: 20px;" ∷ "                background: #dc3545;"
    ∷ "                color: white;" ∷ "                padding: 10px 20px;"
    ∷ "                border-radius: 4px;" ∷ "                z-index: 1000;"
    ∷ "                font-family: Arial, sans-serif;" ∷ "            `;"
    ∷ "            document.body.appendChild(message);" ∷ "            "
    ∷ "            setTimeout(() => {" ∷ "                document.body.removeChild(message);"
    ∷ "            }, 3000);" ∷ "        }" ∷ "    </script>" ∷ "</body>" ∷ "</html>" ∷ "" ∷ [])

unfoldable pub main_page : Bytes
main_page = main_page_body ++ (10 ∷ (main_page_forms ++ (10 ∷ main_page_copy)))
